-- ===== src/Base/Int.antt =====
-- Signed results: `negsuc n` is -(n + 1).
use Prim.Native.Nat.{ℕ, ◌-◌, compare, Ordering}

pub data ℤ : Type 0 where
  pos : ℕ → ℤ
  negsuc : ℕ → ℤ

-- a - b, as an integer.
abbrev pub sub_ℕ : ℕ → ℕ → ℤ
sub_ℕ a b = elim (compare a b) [ Ordering.lt ↦ negsuc (b - a - 1) | _ ↦ pos (a - b) ]
