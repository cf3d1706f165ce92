-- ===== src/Proc/Kill.antt =====
-- `kill`, and what it does to a slot that holds no process.
use operating_systems_cs.Base.{ℕ, ◌<◌, ◌≡◌, ◌≢◌, ◌∙◌, true, some}
use operating_systems_cs.Base.Lists.{get_elem?}
use operating_systems_cs.Proc.{State, Proc, Kernel, find_unused, kill, mark_killed}
use operating_systems_cs.Proc.Calls.{Services}
use operating_systems_cs.Proc.Family.{fork}
use operating_systems_cs.Proc.Table.{find_unused-kill_loop, kill_loop-marks}
use operating_systems_cs.Proc.Birth.{fork_lem}

module _ {F : Type 0} (k : Kernel F) (i pid : ℕ) (p : Proc) (there : get_elem? k.table i ≡ some p)
    (named : p.pid ≡ pid)
    (before : (j : ℕ) (q : Proc) → j < i → get_elem? k.table j ≡ some q → q.pid ≢ pid) where
  -- `kill` finds the first process with the pid, marks it, and wakes it if it sleeps.
  pub kill_lem : ((kill pid k).0 ≡ true) × (get_elem? (kill pid k).1.table i ≡ some (mark_killed p))
  unfolding kill
  kill_lem = kill_loop-marks pid k.table i p there named before

  -- Where the first slot with a pid is the first UNUSED one, as for pid 0, kill of that pid
  -- succeeds, and the process that the next successful fork makes there is RUNNABLE and killed from
  -- its birth.
  pub fork-kill :
      (svc : Services F) (me : Proc) (slot child : ℕ)
      → find_unused k.table 0 ≡ some i
      → (fork svc me slot (kill pid k).1).0 ≡ some child
      → ((kill pid k).0 ≡ true)
        × (q : Proc) × (get_elem? (fork svc me slot (kill pid k).1).1.table i ≡ some q)
        × (q.pid ≡ child)
        × (q.state ≡ State.runnable)
        × (q.killed ≡ true)
  unfolding kill
  fork-kill svc me slot child free made =
      let (q, g, s, c, n, r, d) =
        fork_lem svc (kill pid k).1 i (mark_killed p) (find_unused-kill_loop pid k.table 0 ∙ free)
          kill_lem.1 me slot child made in
      (kill_lem.0, q, g, c, s, d)
