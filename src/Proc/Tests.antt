-- ===== src/Proc/Tests.antt =====
-- A table of three slots: init, its child, and a free slot.
use operating_systems_cs.Base.{
  ℕ, ◌+◌, ◌<◌, ◌≡◌, ◌≢◌, refl, true, false, zero, suc, some, [], ◌∷◌, arith,
}
use operating_systems_cs.Base.Lists.{get_elem?}
use operating_systems_cs.Proc.{
  State, at_forkret, in_sched, Proc, Kernel, pointer, find_unused, kill,
}
use operating_systems_cs.Proc.Calls.{Services}
use operating_systems_cs.Proc.Family.{fork, exit, wait, reaped, nproc}
use operating_systems_cs.Proc.Kill.{fork-kill, kill_lem}
use operating_systems_cs.Proc.Adopt.{NoChild, exit-NoChild}
use operating_systems_cs.Proc.Collect.{wait-reaped}

-- The other parts of the kernel: a counter of pages that were handed out.
abbrev svc : Services ℕ
svc = record {
  kalloc = λ n. (n + 4096, n + 1);
  kfree = λ a n. n;
  copyuvm = λ d s n. (n + 8192, n + 1);
  freevm = λ a n. n;
  filedup = λ a n. n;
  fileclose = λ a n. n;
  idup = λ a n. n;
  iput = λ a n. n;
  begin_op = λ n. n;
  end_op = λ n. n;
}

abbrev slot_of : State → ℕ → ℕ → Proc
slot_of s pid parent = record {
  sz = 4096;
  pgdir = 1;
  kstack = 1;
  state = s;
  pid = pid;
  parent = parent;
  tf = record { eax = 5; others = 0 };
  context = at_forkret;
  chan = 0;
  killed = false;
  ofile = 0 ∷ 7 ∷ [];
  cwd = 3;
  name = [];
}

abbrev init_proc : Proc
init_proc = slot_of State.running 1 0

abbrev zombie_child : Proc
zombie_child = slot_of State.zombie 2 (pointer 0)

abbrev free_slot : Proc
free_slot = slot_of State.unused 0 0

abbrev kernel : Kernel ℕ
kernel = record {
  table = init_proc ∷ zombie_child ∷ free_slot ∷ [];
  nextpid = 3;
  initproc = pointer 0;
  other = 0;
}

kill_zero : (kill 0 kernel).0 ≡ true
unfolding kill
kill_zero = refl

fork_pid : (fork svc init_proc 0 kernel).0 ≡ some 3
unfolding fork
fork_pid = refl

earlier : (j : ℕ) (q : Proc) → j < 2 → get_elem? kernel.table j ≡ some q → q.pid ≢ 0
earlier zero q h e = ground arith
earlier (suc zero) q h e = ground arith
earlier (suc (suc j)) q h e = absurd (omega arith)

fork-kill_example :
    ((kill 0 kernel).0 ≡ true)
    × (q : Proc) × (get_elem? (fork svc init_proc 0 (kill 0 kernel).1).1.table 2 ≡ some q)
    × (q.pid ≡ 3)
    × (q.state ≡ State.runnable)
    × (q.killed ≡ true)
unfolding fork kill find_unused
fork-kill_example = fork-kill kernel 2 0 free_slot refl refl earlier svc init_proc 0 3 refl refl

kill_lem_example :
    ((kill 0 kernel).0 ≡ true)
    × (get_elem? (kill 0 kernel).1.table 2 ≡ some (record free_slot { killed = true }))
kill_lem_example = kill_lem kernel 2 0 free_slot refl refl earlier

wait-reaped_example :
    (i : ℕ) × (p : Proc) × (get_elem? kernel.table i ≡ some p)
    × (p.parent ≡ pointer 0)
    × (p.state ≡ State.zombie)
    × ((wait svc init_proc 0 kernel).0 ≡ reaped p.pid)
    × (q : Proc) × (get_elem? (wait svc init_proc 0 kernel).1.table i ≡ some q)
    × (q.state ≡ State.unused)
    × (q.pid ≡ 0)
    × (q.parent ≡ 0)
    × (q.kstack ≡ 0)
    × (q.killed ≡ false)
wait-reaped_example = wait-reaped svc init_proc 0 kernel 1 zombie_child refl refl refl

-- The child exits while it has a child of its own in slot 2.
abbrev parent_child : Kernel ℕ
parent_child = record kernel {
  table =
      init_proc ∷ slot_of State.running 2 (pointer 0) ∷ slot_of State.sleeping 3 (pointer 1) ∷ [];
}

abbrev after_exit : Kernel ℕ
after_exit = record parent_child {
  table =
      init_proc
      ∷ record (slot_of State.zombie 2 (pointer 0)) {
        ofile = 0 ∷ 0 ∷ [];
        cwd = 0;
        context = in_sched;
      }
      ∷ slot_of State.sleeping 3 (pointer 0)
      ∷ [];
}

exits : exit svc (slot_of State.running 2 (pointer 0)) 1 parent_child ≡ some after_exit
unfolding exit
exits = refl

exit-NoChild_example : NoChild (pointer 1) nproc after_exit.table
exit-NoChild_example =
    exit-NoChild svc (slot_of State.running 2 (pointer 0)) 1 parent_child after_exit exits
