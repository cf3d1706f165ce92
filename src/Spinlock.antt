-- ===== src/Spinlock.antt =====
-- spinlock.c: the CPUs that take and release one spin lock, instruction by instruction where another
-- CPU can see it: `xchg` on `locked`, the store to `lk->cpu`, and their counterparts in `release`.
pub mod Exclusion
mod Tests
use operating_systems_cs.Base.{
  ℕ, zero, suc, ◌+◌, ◌-◌, Bool, true, false, not, ◌&&◌, Option, none, some, List, [], ◌∷◌, ◌==◌,
  if◌then◌else◌, update,
}

-- The fields of `struct cpu` that count nested `cli`s, and the interrupt flag of the processor.
pub record Cpu : Type 0 where
  pub ncli : ℕ
  pub intena : Bool
  pub iflag : Bool

pub pushcli : Cpu → Cpu
pushcli c = record c {
  iflag = false;
  intena = if c.ncli == 0 then c.iflag else c.intena;
  ncli = c.ncli + 1;
}

-- `none` where `popcli` panics.
pub popcli : Cpu → Option Cpu
popcli c =
    if c.iflag
    then none
    else if c.ncli == 0
    then none
    else some (record c {
      ncli = c.ncli - 1;
      iflag = if (c.ncli - 1 == 0) && c.intena then true else c.iflag;
    })

-- Where a CPU is in `acquire` and `release`: outside, at the `xchg`, before the store to `lk->cpu`,
-- in the critical section, and before the store to `lk->locked`.
pub data Place : Type 0 where
  outside spinning got critical leaving : Place

-- `struct spinlock` (`owner` is `lk->cpu`, 0 for none and `c + 1` for CPU `c`), and each CPU.
pub record World : Type 0 where
  pub locked : Bool
  pub owner : ℕ
  pub place : ℕ → Place
  pub cpu : ℕ → Cpu

pub holding : ℕ → World → Bool
holding c w = w.locked && (w.owner == suc c)

-- The next instruction of CPU `c`, which stands at the given place; `none` for a panic.
pub step_at : Place → ℕ → World → Option World
unfolding holding pushcli popcli
step_at outside c w =
    let w' = record w { cpu = update w.cpu c (pushcli (w.cpu c)) } in
    if holding c w' then none else some (record w' { place = update w.place c spinning })
step_at spinning c w =
    some (record w { locked = true; place = update w.place c (if w.locked then spinning else got) })
step_at got c w = some (record w { owner = suc c; place = update w.place c critical })
step_at critical c w =
    if not (holding c w)
    then none
    else some (record w { owner = 0; place = update w.place c leaving })
step_at leaving c w = elim (popcli (w.cpu c)) [
  | none ↦ none
  | some c' ↦
      some (record w { locked = false; place = update w.place c outside; cpu = update w.cpu c c' })
]

pub step : ℕ → World → Option World
unfolding step_at
step c w = step_at (w.place c) c w

-- A schedule says which CPU moves next.
pub run : List ℕ → World → Option World
run [] w = some w
run (c ∷ cs) w = elim (step c w) [ none ↦ none | some w' ↦ run cs w' ]
