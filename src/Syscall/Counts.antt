-- ===== src/Syscall/Counts.antt =====
-- The counts of system calls since the last report.
use operating_systems_cs.Base.{
  ℕ, suc, ◌%◌, ◌^◌, ◌<◌, ◌≡◌, refl, inl, inr, Bool, true, false, ◌&&◌, List, [], ◌∷◌, arith, ltb,
  ◌==◌, ==_sound, ==_refl, Bool-cases, if◌then◌else◌,
}
use operating_systems_cs.Base.Lists.{length}
use operating_systems_cs.Syscall.{
  numbers, nelem, sys_number, is_counted, bump, count_call, sys_sysnumcall, is_call, syscall,
}

abbrev pub valid : ℕ → Bool
valid num = ltb 0 num && ltb num nelem

-- How often `i` is among the calls.
abbrev pub occurs : ℕ → List ℕ → ℕ
occurs i [] = 0
occurs i (n ∷ ns) = if n == i then suc (occurs i ns) else occurs i ns

-- The calls since the last report, the last first.
abbrev pub since : (num : ℕ) → List ℕ → List ℕ
since num ns = if num == sys_number then [] else if valid num then num ∷ ns else ns

-- The calls since the last report, after these calls.
pub run_since : List ℕ → List ℕ → List ℕ
run_since [] ns = ns
run_since (num ∷ nums) ns = run_since nums (since num ns)

-- The counts are those of these calls.
pub record Counted (calls : ℕ → ℕ) (ns : List ℕ) : Type 0 where
  pub all : calls 0 ≡ length ns % 2 ^ 32
  pub each : (i : ℕ) → 0 < i → i < nelem → calls i ≡ occurs i ns % 2 ^ 32

is_counted-valid : (num : ℕ) → valid num ≡ true → is_counted numbers num ≡ true
unfolding is_counted
is_counted-valid num h = ground arith

count_call-Counted :
    (num : ℕ) (calls : ℕ → ℕ) (ns : List ℕ)
    → valid num ≡ true
    → Counted calls ns
    → Counted (count_call num calls) (num ∷ ns)
unfolding count_call
count_call-Counted num calls ns h v = rw (is_counted-valid num h) (record {
  all = (let other : (0 == num) ≡ false = ground arith in rw other (omega (arith, v.all)));
  each = λ i pos lt. elim (Bool-cases (i == num)) [
    | inl here ↦ rw (← (==_sound i num here)) (bumped i pos lt)
    | inr away ↦ unbumped i pos lt away
  ];
})
  where
    bumped : (i : ℕ) → 0 < i → i < nelem → bump i (bump 0 calls) i ≡ occurs i (i ∷ ns) % 2 ^ 32
    bumped i pos lt =
        let other : (i == 0) ≡ false = ground arith in
        rw (==_refl i, other) (omega (arith, v.each i pos lt))

    unbumped :
        (i : ℕ)
        → 0 < i
        → i < nelem
        → (i == num) ≡ false
        → bump num (bump 0 calls) i ≡ occurs i (num ∷ ns) % 2 ^ 32
    unbumped i pos lt away =
        let other : (i == 0) ≡ false = ground arith in
        let back : (num == i) ≡ false = ground arith in rw (away, other, back) (v.each i pos lt)

module _ {S : Type 0} (call : (num : ℕ) → S → ℕ × S) (report : (ℕ → ℕ) → S → S) where
  -- A call with a valid number adds one to its own count and leaves the others.
  pub syscall-Counted :
      (num : ℕ) (calls : ℕ → ℕ) (ns : List ℕ) (s : S)
      → Counted calls ns
      → Counted (syscall call report num calls s).1 (since num ns)
  unfolding syscall sys_sysnumcall
  syscall-Counted num calls ns s v = elim (Bool-cases (valid num)) [
    | inr unknown ↦
        let refused : is_call call report num ≡ false = ground arith in
        let other : (num == sys_number) ≡ false = ground arith in rw (refused, other, unknown) v
    | inl known ↦
        let taken : is_call call report num ≡ true = ground arith in
        elim (Bool-cases (num == sys_number)) [
          | inl reports ↦
              rw (taken, reports) (record { all = refl; each = λ i pos lt. ground arith })
          | inr other ↦ rw (taken, other, known) (count_call-Counted num calls ns known v)
        ]
  ]

  -- The counts and the state after these calls.
  unfoldable pub run : List ℕ → (ℕ → ℕ) → S → (ℕ → ℕ) × S
  run [] calls s = (calls, s)
  run (num ∷ nums) calls s =
      let (eax, calls', s') = syscall call report num calls s in run nums calls' s'

  -- From counts of the system calls since the last report, after any sequence of calls, whatever
  -- they do, sysCalls is again, modulo 2^32, the number of valid calls since the last
  -- sys_sysnumcall in element 0, and the number of those with each number in the element of that
  -- number.
  pub run-Counted :
      (nums ns : List ℕ) (calls : ℕ → ℕ) (s : S)
      → Counted calls ns
      → Counted (run nums calls s).0 (run_since nums ns)
  unfolding run run_since
  run-Counted [] ns calls s v = v
  run-Counted (num ∷ nums) ns calls s v =
      let (eax, calls', s') = syscall call report num calls s in
      run-Counted nums (since num ns) calls' s' (syscall-Counted num calls ns s v)
