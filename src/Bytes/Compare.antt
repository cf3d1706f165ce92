-- ===== src/Bytes/Compare.antt =====
-- `strncmp` and `memcmp` return 0 exactly for equal bytes.
use operating_systems_cs.Base.{ℕ, zero, suc, ◌+◌, ◌-◌, ◌<◌, ◌≡◌, refl, List, [], ◌∷◌, arith}
use mathlib.Core.Logic.{◌↔◌}
use operating_systems_cs.Base.Lists.{take}
use operating_systems_cs.Base.Int.{pos}
use operating_systems_cs.Bytes.{Memory, memcmp, strncmp}
use operating_systems_cs.Bytes.Text.{IsText}

-- strncmp of two texts is 0 exactly if their first n bytes agree.
pub strncmp_lem :
    (n p q : ℕ) (xs ys : List ℕ) (mem : Memory)
    → IsText mem p xs
    → IsText mem q ys
    → (strncmp p q n mem ≡ pos 0) ↔ (take n xs ≡ take n ys)
unfolding strncmp
strncmp_lem zero p q xs ys mem h k = (λ e. refl, λ e. refl)
strncmp_lem (suc n) p q [] [] mem h k = (λ e. refl, λ e. ground arith)
strncmp_lem (suc n) p q [] (y ∷ ys) mem h (k, ne, r) = (λ e. ground arith, λ e. cc)
strncmp_lem (suc n) p q (x ∷ xs) [] mem (h, ne, r) k = (λ e. ground arith, λ e. cc)
strncmp_lem (suc n) p q (x ∷ xs) (y ∷ ys) mem (h, nx, hr) (k, ny, kr) =
    let ih = strncmp_lem n (p + 1) (q + 1) xs ys mem hr kr in
    (λ e. ground (arith, ih.0), λ e. ground (arith, ih.1))

-- memcmp is 0 exactly if the n bytes at the two addresses agree.
pub memcmp_lem :
    (n p q : ℕ) (mem : Memory)
    → (memcmp p q n mem ≡ pos 0) ↔ ((i : ℕ) → i < n → mem (p + i) ≡ mem (q + i))
unfolding memcmp
memcmp_lem zero p q mem = (λ e i h. absurd (omega arith), λ e. refl)
memcmp_lem (suc n) p q mem =
    let ih = memcmp_lem n (p + 1) (q + 1) mem in
    (
      λ e i h.
          let rest : memcmp (p + 1) (q + 1) n mem ≡ pos 0 = ground arith in
          let heads : mem p ≡ mem q = ground arith in ground (arith, ih.0 rest (i - 1)),
      λ e.
          let rest : memcmp (p + 1) (q + 1) n mem ≡ pos 0 =
            ih.1 (λ i h. ground (arith, e (i + 1))) in
          ground (arith, e 0),
    )
