-- ===== src/Bytes/Tests.antt =====
-- The byte routines on the text "ab" and on short copies.
use operating_systems_cs.Base.{ℕ, ◌≡◌, refl, List, [], ◌∷◌, arith, ◌==◌, if◌then◌else◌}
use operating_systems_cs.Base.Int.{negsuc}
use operating_systems_cs.Bytes.{Memory, memmove, strncmp}
use operating_systems_cs.Bytes.Move.{memmove_lem}
use operating_systems_cs.Bytes.Text.{IsText}

-- "ab" at 100; elsewhere byte `a` is at address `a`.
abbrev mem : Memory
mem a = if a == 100 then b'a' else if a == 101 then b'b' else if a == 102 then 0 else a

abbrev ab : List ℕ
ab = b'a' ∷ b'b' ∷ []

ab-IsText : IsText mem 100 ab
ab-IsText = (refl, omega arith, (refl, omega arith, refl))

overlap : memmove 11 10 3 mem 13 ≡ 12
unfolding memmove
overlap = refl

less : strncmp 100 101 5 mem ≡ negsuc 0
unfolding strncmp
less = refl

memmove_lem_example : memmove 11 10 3 mem 12 ≡ 11
memmove_lem_example = memmove_lem 11 10 3 mem 12
