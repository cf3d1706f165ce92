-- ===== src/Bytes/Text.antt =====
-- The routines on texts, which end at a zero byte.
use mathlib.Core.Path.{subst, sym}
use operating_systems_cs.Base.{
  ℕ, zero, suc, ◌+◌, ◌-◌, ◌<◌, ◌≤◌, ◌≡◌, ◌≢◌, ◌⊎◌, ◌&&◌, some, List, [], ◌∷◌, arith, ltb, leb,
  if◌then◌else◌, update, ==_ne,
}
use operating_systems_cs.Base.Lists.{length, take}
use operating_systems_cs.Bytes.{Memory, pad, strncpy, copy_text, safestrcpy, strlen_from, strlen}

-- At `s` stand the bytes `xs`, none of them zero, and a zero byte.
abbrev pub IsText : Memory → ℕ → List ℕ → Type 0
IsText mem s [] = mem s ≡ 0
IsText mem s (x ∷ xs) = (mem s ≡ x) × (x ≢ 0) × IsText mem (s + 1) xs

-- `xs[i]`, and 0 behind the end.
abbrev pub get_or : List ℕ → ℕ → ℕ
get_or [] i = 0
get_or (x ∷ xs) zero = x
get_or (x ∷ xs) (suc i) = get_or xs i

-- A store outside the text leaves it.
IsText-update :
    (xs : List ℕ) (mem : Memory) (s a v : ℕ)
    → (a < s) ⊎ (s + length xs < a)
    → IsText mem s xs
    → IsText (update mem a v) s xs
IsText-update [] mem s a v h t = ground arith
IsText-update (x ∷ xs) mem s a v h (e, ne, t) =
    (ground arith, ne, IsText-update xs mem (s + 1) a v (ground arith) t)

strlen_from_lem :
    (fuel n s : ℕ) (xs : List ℕ) (mem : Memory)
    → IsText mem (s + n) xs
    → length xs < fuel
    → strlen_from fuel s n mem ≡ some (n + length xs)
unfolding strlen_from
strlen_from_lem zero n s xs mem t h = absurd (omega arith)
strlen_from_lem (suc fuel) n s [] mem t h = ground arith
strlen_from_lem (suc fuel) n s (x ∷ xs) mem (e, ne, t) h =
    let next : s + n + 1 ≡ s + (n + 1) = omega arith in
    ground (arith, strlen_from_lem fuel (n + 1) s xs mem (rw next at t))

-- With more rounds than the text has bytes, strlen returns the length of the text.
pub strlen_lem :
    (fuel s : ℕ) (xs : List ℕ) (mem : Memory)
    → IsText mem s xs
    → length xs < fuel
    → strlen fuel s mem ≡ some (length xs)
unfolding strlen
strlen_lem fuel s xs mem t h =
    let here : s ≡ s + 0 = omega arith in
    ground (arith, strlen_from_lem fuel 0 s xs mem (rw here at t) h)

pad_lem :
    (n s : ℕ) (mem : Memory) (a : ℕ)
    → pad s n mem a ≡ (if leb s a && ltb a (s + n) then 0 else mem a)
unfolding pad
pad_lem zero s mem a = ground arith
pad_lem (suc n) s mem a = ground (arith, pad_lem n (s + 1) (update mem s 0) a)

get_or-suc :
    (x : ℕ) (xs : List ℕ) (s a : ℕ) → s < a → get_or (x ∷ xs) (a - s) ≡ get_or xs (a - (s + 1))
get_or-suc x xs s a h = let e : a - s ≡ suc (a - (s + 1)) = omega arith in rw e

-- With the source text apart from the destination, strncpy writes exactly n bytes, the text cut off
-- or filled up with zeros.
pub strncpy_lem :
    (n s t : ℕ) (xs : List ℕ) (mem : Memory) (a : ℕ)
    → IsText mem t xs
    → (s + n ≤ t) ⊎ (t + length xs < s)
    → strncpy s t n mem a ≡ (if leb s a && ltb a (s + n) then get_or xs (a - s) else mem a)
unfolding strncpy
strncpy_lem zero s t xs mem a h d = ground arith
strncpy_lem (suc n) s t [] mem a h d = ground (arith, pad_lem n (s + 1) (update mem s (mem t)) a)
strncpy_lem (suc n) s t (x ∷ xs) mem a (e, ne, h) d = ground (
  arith,
  strncpy_lem n (s + 1) (t + 1) xs (update mem s (mem t)) a
      (IsText-update xs mem (t + 1) s (mem t) (ground arith) h) (ground arith),
  get_or-suc x xs s a,
)

copy_text-frame :
    (n s t : ℕ) (mem : Memory) (a : ℕ) → (a < s) ⊎ (s + n < a) → copy_text s t n mem a ≡ mem a
unfolding copy_text
copy_text-frame zero s t mem a h = ground arith
copy_text-frame (suc n) s t mem a h =
    ground (arith, copy_text-frame n (s + 1) (t + 1) (update mem s (mem t)) a)

copy_text-IsText :
    (n s t : ℕ) (xs : List ℕ) (mem : Memory)
    → IsText mem t xs
    → (s + n < t) ⊎ (t + length xs < s)
    → IsText (copy_text s t n mem) s (take n xs)
unfolding copy_text
copy_text-IsText zero s t xs mem h d = ground arith
copy_text-IsText (suc n) s t [] mem h d = ground arith
copy_text-IsText (suc n) s t (x ∷ xs) mem (e, ne, h) d =
    let step : copy_text s t (suc n) mem ≡ copy_text (s + 1) (t + 1) n (update mem s x) =
      rw (e, ==_ne x 0 ne) in
    subst (λ m. IsText m s (x ∷ take n xs)) (sym step)
      (
        ground (arith, copy_text-frame n (s + 1) (t + 1) (update mem s x) s),
        ne,
        copy_text-IsText n (s + 1) (t + 1) xs (update mem s x)
            (IsText-update xs mem (t + 1) s x (ground arith) h) (ground arith),
      )

-- With n positive and the source text apart from the destination, safestrcpy leaves a text that
-- ends at a zero byte, the source cut off at n - 1 bytes, and writes no byte outside the n bytes of
-- the destination.
pub safestrcpy_lem :
    (n s t : ℕ) (xs : List ℕ) (mem : Memory)
    → 0 < n
    → IsText mem t xs
    → (s + n ≤ t) ⊎ (t + length xs < s)
    → IsText (safestrcpy s t n mem) s (take (n - 1) xs)
      × ((a : ℕ) → (a < s) ⊎ (s + n ≤ a) → safestrcpy s t n mem a ≡ mem a)
unfolding safestrcpy
safestrcpy_lem zero s t xs mem p h d = absurd (omega arith)
safestrcpy_lem (suc n) s t xs mem p h d =
    let e : suc n - 1 ≡ n = omega arith in
    (
      rw e (copy_text-IsText n s t xs mem h (ground arith)),
      λ a o. copy_text-frame n s t mem a (ground arith),
    )
