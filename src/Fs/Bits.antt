-- ===== src/Fs/Bits.antt =====
-- The bits of a byte and of a block of the bitmap.
use Prim.Native.Nat.{bit_and, bit_or}
use operating_systems_cs.Base.{
  ℕ, zero, suc, ◌-◌, ◌/◌, ◌%◌, ◌^◌, ◌<◌, ◌≡◌, refl, inl, inr, Bool, true, false, not, ◌&&◌, arith,
  ltb, ltb→lt, ◌==◌, ==_sound, Bool-cases, if◌then◌else◌,
}
use operating_systems_cs.Fs.{Block, is_free_bit, set_bit, clear_bit}

-- A law of the bytes is tried on each number below a bound.
tried : (law : ℕ → Bool) (bound : ℕ) → Bool
tried law zero = true
tried law (suc bound) = let fewer = tried law bound in if law bound then fewer else false

tried-true : (law : ℕ → Bool) (bound w : ℕ) → w < bound → tried law bound ≡ true → law w ≡ true
unfolding tried
tried-true law zero w lt e = absurd (omega arith)
tried-true law (suc bound) w lt e = ground (arith, tried-true law bound w)

abbrev agree : Bool → Bool → Bool
agree true b = b
agree false b = not b

agree_sound : (a b : Bool) → agree a b ≡ true → a ≡ b
agree_sound true true e = refl
agree_sound true false e = cc
agree_sound false true e = cc
agree_sound false false e = refl

-- What holds of the bits `j` and `k` of the byte `x`.
abbrev set_law : ℕ → ℕ → ℕ → Bool
set_law j k x =
    ltb (bit_or x (2 ^ k)) 256
    && agree (bit_and (bit_or x (2 ^ k)) (2 ^ j) == 0)
        (if k == j then false else bit_and x (2 ^ j) == 0)

abbrev clear_law : ℕ → ℕ → ℕ → Bool
clear_law j k x =
    ltb (bit_and x (255 - 2 ^ k)) 256
    && agree (bit_and (bit_and x (255 - 2 ^ k)) (2 ^ j) == 0)
        (if k == j then true else bit_and x (2 ^ j) == 0)

set_table : tried (λ j. tried (λ k. tried (set_law j k) 256) 8) 8 ≡ true
unfolding tried
set_table = refl

clear_table : tried (λ j. tried (λ k. tried (clear_law j k) 256) 8) 8 ≡ true
unfolding tried
clear_table = refl

abbrev pub IsBytes : Block → Type 0
IsBytes v = (i : ℕ) → v i < 256

and_true : (a b : Bool) → (a && b) ≡ true → (a ≡ true) × (b ≡ true)
and_true true true e = (refl, refl)
and_true true false e = cc
and_true false b e = cc

module _ (j k x : ℕ) (hj : j < 8) (hk : k < 8) (hx : x < 256) where
  set_lem :
      (bit_or x (2 ^ k) < 256)
      × ((bit_and (bit_or x (2 ^ k)) (2 ^ j) == 0)
          ≡ (if k == j then false else bit_and x (2 ^ j) == 0))
  set_lem =
      let tj = tried-true (λ j. tried (λ k. tried (set_law j k) 256) 8) 8 j hj set_table in
      let tk = tried-true (λ k. tried (set_law j k) 256) 8 k hk tj in
      let (lt, same) =
        and_true (ltb (bit_or x (2 ^ k)) 256)
          (agree (bit_and (bit_or x (2 ^ k)) (2 ^ j) == 0)
            (if k == j then false else bit_and x (2 ^ j) == 0))
          (tried-true (set_law j k) 256 x hx tk) in
      (ltb→lt (bit_or x (2 ^ k)) 256 lt, agree_sound _ _ same)

  clear_lem :
      (bit_and x (255 - 2 ^ k) < 256)
      × ((bit_and (bit_and x (255 - 2 ^ k)) (2 ^ j) == 0)
          ≡ (if k == j then true else bit_and x (2 ^ j) == 0))
  clear_lem =
      let tj = tried-true (λ j. tried (λ k. tried (clear_law j k) 256) 8) 8 j hj clear_table in
      let tk = tried-true (λ k. tried (clear_law j k) 256) 8 k hk tj in
      let (lt, same) =
        and_true (ltb (bit_and x (255 - 2 ^ k)) 256)
          (agree (bit_and (bit_and x (255 - 2 ^ k)) (2 ^ j) == 0)
            (if k == j then true else bit_and x (2 ^ j) == 0))
          (tried-true (clear_law j k) 256 x hx tk) in
      (ltb→lt (bit_and x (255 - 2 ^ k)) 256 lt, agree_sound _ _ same)

-- In one byte, bits are told apart by their places.
same_place : (a b : ℕ) → b / 8 ≡ a / 8 → (a % 8 == b % 8) ≡ (a == b)
same_place a b h = ground arith

other_byte : (a b : ℕ) → (b / 8 == a / 8) ≡ false → (a == b) ≡ false
other_byte a b h = ground arith

pub is_free_bit-set_bit :
    (v : Block) (bi bj : ℕ)
    → IsBytes v
    → is_free_bit (set_bit v bi) bj ≡ (if bi == bj then false else is_free_bit v bj)
unfolding is_free_bit set_bit
is_free_bit-set_bit v bi bj h = elim (Bool-cases (bj / 8 == bi / 8)) [
  | inl byte ↦
      let e : bj / 8 ≡ bi / 8 = ==_sound (bj / 8) (bi / 8) byte in
      rw byte (
        rw (e, ← (same_place bi bj e))
          (set_lem (bj % 8) (bi % 8) (v (bi / 8)) (omega arith) (omega arith) (h (bi / 8))).1)
  | inr away ↦ rw (away, other_byte bi bj away) refl
]

pub is_free_bit-clear_bit :
    (v : Block) (bi bj : ℕ)
    → IsBytes v
    → is_free_bit (clear_bit v bi) bj ≡ (if bi == bj then true else is_free_bit v bj)
unfolding is_free_bit clear_bit
is_free_bit-clear_bit v bi bj h = elim (Bool-cases (bj / 8 == bi / 8)) [
  | inl byte ↦
      let e : bj / 8 ≡ bi / 8 = ==_sound (bj / 8) (bi / 8) byte in
      rw byte (
        rw (e, ← (same_place bi bj e))
          (clear_lem (bj % 8) (bi % 8) (v (bi / 8)) (omega arith) (omega arith) (h (bi / 8))).1)
  | inr away ↦ rw (away, other_byte bi bj away) refl
]

pub set_bit-IsBytes : (v : Block) (bi : ℕ) → IsBytes v → IsBytes (set_bit v bi)
unfolding set_bit
set_bit-IsBytes v bi h i = elim (Bool-cases (i == bi / 8)) [
  | inl here ↦ rw here (set_lem 0 (bi % 8) (v (bi / 8)) (omega arith) (omega arith) (h (bi / 8))).0
  | inr away ↦ rw away (h i)
]
