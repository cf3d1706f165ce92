-- ===== src/Log/Tests.antt =====
-- The log at small inputs: a cache over a disk, and commits that are cut off.
use operating_systems_cs.Base.{
  ℕ, ◌+◌, ◌-◌, ◌<◌, ◌≡◌, ◌≢◌, ◌⊎◌, refl, true, false, ◌&&◌, some, none, [], ◌∷◌, ◌++◌, inr, arith,
  ltb, ◌==◌, if◌then◌else◌,
}
use operating_systems_cs.Base.Lists.{sum}
use operating_systems_cs.Log.Blocks.{Block, BlockIo}
use operating_systems_cs.Log.{
  Log, log_size, BufFlags, begin_op, find_block, log_write, commit, recover_from_log,
}
use operating_systems_cs.Log.Rounds.{Home}
use operating_systems_cs.Log.Commit.{committed, disk-commit}
use operating_systems_cs.Log.Crash.{Boot, crash_safe}
use operating_systems_cs.Log.Admission.{
  ledger, begins, Reach, here, next, IsIdle, log_write-admitted,
}

-- A write-through cache of unlimited size.
record Machine : Type 0 where
  cache : ℕ → Block
  medium : ℕ → Block
  budget : ℕ

put : ℕ → Block → Machine → Machine
put b d s = record s {
  cache = λ c. if c == b then d else s.cache c;
  medium = λ c. if ltb 0 s.budget && (c == b) then d else s.medium c;
  budget = s.budget - 1;
}

abbrev flat : BlockIo Machine
unfolding put
flat = record {
  view = λ s. s.cache;
  disk = λ s. s.medium;
  left = λ s. s.budget;
  bread = λ b s. (s.cache b, s);
  bwrite = put;
  brelse = λ b s. s;
  bread_data = λ b s. refl;
  view-bread = λ b s c. refl;
  disk-bread = λ b s c. refl;
  left-bread = λ b s. refl;
  view-bwrite = λ b d s c. refl;
  disk-bwrite = λ b d s c. refl;
  left-bwrite = λ b d s. refl;
  view-brelse = λ b s c. refl;
  disk-brelse = λ b s c. refl;
  left-brelse = λ b s. refl;
}

abbrev seven : Block
seven = λ w. 7

-- Block 50 is logged: it holds sevens in the cache and zeros on the medium.
abbrev log_50 : Log
log_50 = record {
  start = 2;
  size = 30;
  outstanding = 0;
  committing = true;
  lh = record { n = 1; block = λ i. 50 };
}

abbrev machine : ℕ → Machine
machine n = record { cache = λ c. if c == 50 then seven else λ w. 0; medium = λ c w. 0; budget = n }

abbrev boot : (ℕ → Block) → ℕ → Machine
boot d n = record { cache = d; medium = d; budget = n }

home_50 : Home 2 1 (λ i. 50) 1
home_50 j p = inr (omega arith)

boot-Boot : (d : ℕ → Block) (n : ℕ) → Boot flat d (boot d n)
unfolding flat
boot-Boot d n = record { same = λ c. refl; cold = λ c. refl }

-- Two writes reach the medium, the log block and the header; recovery is cut off before its first.
abbrev crashed : ℕ → Block
crashed = flat.disk (commit flat log_50 (machine 2)).1

abbrev crashed_again : ℕ → Block
crashed_again = flat.disk (recover_from_log flat log_50 (boot crashed 0)).1

header_written : crashed 2 0 ≡ 1
unfolding flat commit
header_written = refl

not_installed : crashed 50 0 ≡ 0
unfolding flat commit
not_installed = refl

header_left : crashed_again 2 0 ≡ 1
unfolding flat commit recover_from_log
header_left = refl

crash_safe_example :
    flat.disk (recover_from_log flat log_50 (boot crashed_again 9)).1 50
    ≡ (if ltb 1 2 then committed flat log_50 (machine 2) home_50 50 else (λ w. 0))
unfolding flat
crash_safe_example =
    crash_safe flat log_50 (machine 2) home_50 refl log_50 log_50 (boot crashed 0)
      (boot crashed_again 9) 50 (boot-Boot crashed 0) refl (boot-Boot crashed_again 9) refl
      (omega (arith, header_left)) (inr (omega arith))

disk-commit_example :
    (flat.disk (commit flat log_50 (machine 4)).1 50 ≡ committed flat log_50 (machine 4) home_50 50)
    × (flat.disk (commit flat log_50 (machine 4)).1 2 0 ≡ 0)
unfolding flat
disk-commit_example =
    disk-commit flat log_50 (machine 4) home_50 refl 50 (inr (omega arith)) (omega arith)

-- A log of LOGSIZE blocks, in which two operations may begin.
abbrev idle : Log
idle = record log_50 { committing = false; lh = record { n = 0; block = λ i. 0 } }

abbrev flags : BufFlags
flags = record { valid = true; dirty = false }

abbrev one_op : Log
one_op = record idle { outstanding = 1 }

idle-IsIdle : IsIdle idle
idle-IsIdle = record { no_ops = refl; not_committing = refl; empty = refl }

one_op-Reach : Reach (ledger idle []) (ledger one_op ([] ++ 10 ∷ []))
unfolding begin_op
one_op-Reach = next here (begins refl)

log_write-admitted_example :
    ((1 < log_size) × (log_write one_op 77 flags ≢ none))
    ⊎ (◌≡◌ {A = ℕ} 1 log_size × (log_write one_op 77 flags ≡ none) × (sum (9 ∷ []) ≡ 0))
log_write-admitted_example = log_write-admitted 9 [] [] 77 flags idle-IsIdle refl one_op-Reach

-- With the log area that mkfs makes, size LOGSIZE, the 30th block of three operations is refused.
refused_at_29 :
    log_write
      (record one_op { size = 30; outstanding = 3; lh = record { n = 29; block = λ i. i + 40 } })
      90
      flags
    ≡ none
unfolding log_write
refused_at_29 = refl

abbrev two_blocks : Log
two_blocks = record one_op { lh = record { n = 2; block = λ i. i + 40 } }

abbrev after : Log
after = record one_op { lh = record { n = 2; block = λ j. if j == 1 then 41 else j + 40 } }

abbrev flags' : BufFlags
flags' = record { valid = true; dirty = true }

absorbed : log_write two_blocks 41 flags ≡ some (after, flags')
unfolding log_write find_block
absorbed = refl
