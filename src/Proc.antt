-- ===== src/Proc.antt =====
-- proc.c: the process table. `ptable.lock` makes each critical section one step; the switch to the
-- scheduler ends a step.
pub mod Calls
pub mod Family
pub mod Table
pub mod Birth
mod Tests
pub mod Kill
pub mod Collect
pub mod Adopt
use operating_systems_cs.Base.{
  ℕ, zero, suc, ◌+◌, Bool, true, false, not, ◌&&◌, Option, none, some, List, [], ◌∷◌, ◌==◌,
  if◌then◌else◌,
}
use operating_systems_cs.Base.Lists.{get_elem?, set}
use Calls.{Services}

-- `enum procstate`
pub data State : Type 0 where
  unused embryo sleeping runnable running zombie : State

abbrev pub is_unused : State → Bool
is_unused State.unused = true
is_unused _ = false

abbrev pub is_sleeping : State → Bool
is_sleeping State.sleeping = true
is_sleeping _ = false

abbrev pub is_runnable : State → Bool
is_runnable State.runnable = true
is_runnable _ = false

abbrev pub is_zombie : State → Bool
is_zombie State.zombie = true
is_zombie _ = false

-- A trap frame: the register that a system call returns in, and the rest of it.
pub record TrapFrame : Type 0 where
  pub eax : ℕ
  pub others : ℕ

-- Where the process goes on when it is switched to.
pub data Context : Type 0 where
  at_forkret : Context
  in_sched : Context

-- `struct proc`. Pointers are numbers, 0 is NULL, and `pointer i` points to slot `i` of the table.
pub record Proc : Type 0 where
  pub sz : ℕ
  pub pgdir : ℕ
  pub kstack : ℕ
  pub state : State
  pub pid : ℕ
  pub parent : ℕ
  pub tf : TrapFrame
  pub context : Context
  pub chan : ℕ
  pub killed : Bool
  pub ofile : List ℕ
  pub cwd : ℕ
  pub name : List ℕ

abbrev pub pointer : ℕ → ℕ
pointer i = suc i

-- `ptable`, `nextpid`, `initproc`, and the state `F` of the other parts of the kernel.
pub record Kernel (F : Type 0) : Type 0 where
  pub table : List Proc
  pub nextpid : ℕ
  pub initproc : ℕ
  pub other : F

-- The first slot, from number `i` on, that is UNUSED.
pub find_unused : List Proc → ℕ → Option ℕ
find_unused [] i = none
find_unused (p ∷ ps) i = if is_unused p.state then some i else find_unused ps (i + 1)

-- `p->f = …` for the slot `i`.
pub modify : ℕ → (Proc → Proc) → List Proc → List Proc
modify i f [] = []
modify zero f (p ∷ ps) = f p ∷ ps
modify (suc i) f (p ∷ ps) = p ∷ modify i f ps

-- `wakeup1`
pub wakeup1 : ℕ → List Proc → List Proc
wakeup1 chan [] = []
wakeup1 chan (p ∷ ps) =
    (if is_sleeping p.state && (p.chan == chan) then record p { state = State.runnable } else p)
    ∷ wakeup1 chan ps

-- What `kill` does to the process that it finds.
abbrev pub mark_killed : Proc → Proc
mark_killed p = record p {
  killed = true;
  state = if is_sleeping p.state then State.runnable else p.state;
}

-- The loop of `kill`: whether there is the process, and the table.
pub kill_loop : ℕ → List Proc → Bool × List Proc
kill_loop pid [] = (false, [])
kill_loop pid (p ∷ ps) =
    let rest = kill_loop pid ps in
    if p.pid == pid then (true, mark_killed p ∷ ps) else (rest.0, p ∷ rest.1)

module _ {F : Type 0} where
  pub wakeup : ℕ → Kernel F → Kernel F
  unfolding wakeup1
  wakeup chan k = record k { table = wakeup1 chan k.table }

  -- `kill`: `true` for 0, `false` for -1.
  pub kill : ℕ → Kernel F → Bool × Kernel F
  unfolding kill_loop
  kill pid k = let r = kill_loop pid k.table in (r.0, record k { table = r.1 })

  -- `yield` of the process in slot `me`, up to the switch.
  pub yield_cpu : ℕ → Kernel F → Kernel F
  unfolding modify
  yield_cpu me k = record k {
    table = modify me (λ p. record p { state = State.runnable; context = in_sched }) k.table;
  }

  -- `sleep` on `chan`, up to the switch.
  pub sleep : ℕ → ℕ → Kernel F → Kernel F
  unfolding modify
  sleep me chan k = record k {
    table =
        modify me (λ p. record p { chan = chan; state = State.sleeping; context = in_sched })
          k.table;
  }

  -- `sleep` after the switch back.
  pub wake : ℕ → Kernel F → Kernel F
  unfolding modify
  wake me k = record k { table = modify me (λ p. record p { chan = 0 }) k.table }

  -- The scheduler's choice of slot `i`: only a RUNNABLE process is run.
  pub schedule : ℕ → Kernel F → Option (Kernel F)
  unfolding modify
  schedule i k = elim (get_elem? k.table i) [
    | none ↦ none
    | some p ↦
        if is_runnable p.state
        then some (record k { table = modify i (λ q. record q { state = State.running }) k.table })
        else none
  ]

  -- `allocproc` under the lock, on the slot that it found.
  pub take_slot : ℕ → Kernel F → Kernel F
  unfolding modify
  take_slot i k = record k {
    table = modify i (λ p. record p { state = State.embryo; pid = k.nextpid }) k.table;
    nextpid = k.nextpid + 1;
  }

  -- `allocproc` after that: the kernel stack and what is set up on it.
  pub give_stack : Services F → ℕ → Kernel F → Option ℕ × Kernel F
  unfolding modify
  give_stack svc i k =
      let (kstack, other) = svc.kalloc k.other in
      if kstack == 0
      then (
        none,
        record k {
          table = modify i (λ p. record p { kstack = 0; state = State.unused }) k.table;
          other = other;
        },
      )
      else (
        some i,
        record k {
          table = modify i (λ p. record p { kstack = kstack; context = at_forkret }) k.table;
          other = other;
        },
      )

  -- `allocproc`: the slot that it returns, none for 0.
  pub allocproc : Services F → Kernel F → Option ℕ × Kernel F
  unfolding find_unused take_slot give_stack
  allocproc svc k = elim (find_unused k.table 0) [
    | none ↦ (none, k)
    | some i ↦ give_stack svc i (take_slot i k)
  ]
