-- ===== src/Proc/Family.antt =====
-- proc.c: `fork`, `exit` and `wait`, which make, end and collect processes.
use operating_systems_cs.Base.{
  ℕ, zero, suc, ◌+◌, Bool, true, false, not, ◌||◌, Option, none, some, List, [], ◌∷◌, ◌==◌,
  if◌then◌else◌,
}
use operating_systems_cs.Base.Lists.{get_elem?, take}
use operating_systems_cs.Proc.Calls.{Services}
use operating_systems_cs.Proc.{
  State, is_zombie, Proc, Kernel, pointer, modify, wakeup1, allocproc, in_sched,
}

module _ {F : Type 0} (svc : Services F) where
  -- `for(i = 0; i < NOFILE; i++) if(proc->ofile[i]) np->ofile[i] = filedup(proc->ofile[i]);`
  pub copy_files : List ℕ → List ℕ → F → List ℕ × F
  copy_files [] theirs s = (theirs, s)
  copy_files (f ∷ fs) [] s = ([], s)
  copy_files (f ∷ fs) (g ∷ gs) s =
      let (gs', s') = copy_files fs gs (if f == 0 then s else svc.filedup f s) in
      ((if f == 0 then g else f) ∷ gs', s')

  -- `fork` from the copy of the address space on, for the new process `np` in slot `i`.
  unfoldable pub fill_child : Proc → ℕ → ℕ → Proc → Kernel F → Option ℕ × Kernel F
  unfolding modify copy_files
  fill_child me slot i np k =
      let (pgdir, s) = svc.copyuvm me.pgdir me.sz k.other in
      let (ofile, s') = copy_files me.ofile np.ofile s in
      if pgdir == 0
      then (
        none,
        record k {
          table = modify i (λ p. record p { pgdir = 0; kstack = 0; state = State.unused }) k.table;
          other = svc.kfree np.kstack s;
        },
      )
      else (
        some np.pid,
        record k {
          table =
              modify i
                (λ p. record p {
                  pgdir = pgdir;
                  sz = me.sz;
                  parent = pointer slot;
                  tf = record (me.tf) { eax = 0 };
                  ofile = ofile;
                  cwd = me.cwd;
                  name = take 15 me.name;
                  state = State.runnable;
                })
                k.table;
          other = svc.idup me.cwd s';
        },
      )

  -- `fork` by the process `me` in slot `slot`: the child's pid, none for -1.
  unfoldable pub fork : Proc → ℕ → Kernel F → Option ℕ × Kernel F
  unfolding allocproc fill_child
  fork me slot k =
      let (found, k') = allocproc svc k in
      elim found [
        | none ↦ (none, k')
        | some i ↦ elim (get_elem? k'.table i) [
          | none ↦ (none, k')
          | some np ↦ fill_child me slot i np k'
        ]
      ]

  -- `exit`'s loop over the open files.
  unfoldable pub close_files : List ℕ → F → List ℕ × F
  close_files [] s = ([], s)
  close_files (f ∷ fs) s =
      let (fs', s') = close_files fs (if f == 0 then s else svc.fileclose f s) in (0 ∷ fs', s')

-- One round of `exit`'s loop over the table, at slot `i`: a child of `me` is passed to init.
-- `wakeup1` goes over the whole table.
unfoldable pub pass_child : ℕ → ℕ → ℕ → List Proc → List Proc
pass_child me init i t = elim (get_elem? t i) [
  | none ↦ t
  | some p ↦
      if p.parent == me
      then (let t' = modify i (λ q. record q { parent = init }) t in
          if is_zombie p.state then wakeup1 init t' else t')
      else t
]

-- `n` rounds, from slot `i` on.
unfoldable pub pass_children : ℕ → ℕ → ℕ → ℕ → List Proc → List Proc
unfolding pass_child
pass_children me init i zero t = t
pass_children me init i (suc n) t = pass_children me init (i + 1) n (pass_child me init i t)

abbrev pub nproc : ℕ
nproc = 64

-- How a call of `wait` leaves the lock.
pub data WaitOutcome : Type 0 where
  reaped : ℕ → WaitOutcome
  no_children : WaitOutcome
  sleeps : WaitOutcome

-- The scan of `wait` from slot `i` on: whether `me` has children, and the first one that is a
-- ZOMBIE.
unfoldable pub scan_children : ℕ → List Proc → ℕ → Bool × Option ℕ
scan_children me [] i = (false, none)
scan_children me (p ∷ ps) i =
    let rest = scan_children me ps (i + 1) in
    if not (p.parent == me)
    then rest
    else if is_zombie p.state
    then (true, some i)
    else (true, rest.1)

-- A slot after `wait` has collected it.
abbrev pub collected : Proc → Proc
collected p = record p {
  kstack = 0;
  pid = 0;
  parent = 0;
  name = [];
  killed = false;
  state = State.unused;
}

-- What `exit` does to the table: its own slot without files and directory, a wakeup for the parent,
-- its children passed on, and its own state.
unfoldable pub exit_table : Proc → ℕ → ℕ → List ℕ → List Proc → List Proc
unfolding pass_children wakeup1 modify
exit_table me slot init ofile t =
    let t = modify slot (λ p. record p { ofile = ofile; cwd = 0 }) t in
    let t = wakeup1 me.parent t in
    let t = pass_children (pointer slot) init 0 nproc t in
    modify slot (λ p. record p { state = State.zombie; context = in_sched }) t

module _ {F : Type 0} (svc : Services F) where
  -- `exit` of the process in slot `slot`, up to the switch; none where it panics.
  unfoldable pub exit : Proc → ℕ → Kernel F → Option (Kernel F)
  unfolding close_files exit_table
  exit me slot k =
      let (ofile, s) = close_files svc me.ofile k.other in
      if pointer slot == k.initproc
      then none
      else some (record k {
        table = exit_table me slot k.initproc ofile k.table;
        other = svc.end_op (svc.iput me.cwd (svc.begin_op s));
      })

  -- `wait` by the process in slot `slot`, up to its end or its next sleep.
  unfoldable pub wait : Proc → ℕ → Kernel F → WaitOutcome × Kernel F
  unfolding scan_children modify
  wait me slot k =
      let (havekids, found) = scan_children (pointer slot) k.table 0 in
      elim found [
        | some i ↦ elim (get_elem? k.table i) [
          | none ↦ (no_children, k)
          | some p ↦ (
            reaped p.pid,
            record k {
              table = modify i collected k.table;
              other = svc.freevm p.pgdir (svc.kfree p.kstack k.other);
            },
          )
        ]
        | none ↦ if not havekids || me.killed then (no_children, k) else (
          sleeps,
          record k {
            table =
                modify slot
                  (λ p. record p {
                    chan = pointer slot;
                    state = State.sleeping;
                    context = in_sched;
                  })
                  k.table;
          },
        )
      ]
