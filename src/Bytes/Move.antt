-- ===== src/Bytes/Move.antt =====
-- `memmove` copies, also where source and destination overlap.
use operating_systems_cs.Base.{
  ℕ, zero, suc, ◌+◌, ◌-◌, ◌<◌, ◌≤◌, ◌≡◌, ◌⊎◌, ◌&&◌, arith, ltb, leb, if◌then◌else◌, update,
}
use operating_systems_cs.Bytes.{Memory, move_backward, move_forward, memmove}

-- What a copy of `n` bytes leaves at `a`.
abbrev pub copied : ℕ → ℕ → ℕ → Memory → ℕ → ℕ
copied dst src n mem a = if leb dst a && ltb a (dst + n) then mem (src + (a - dst)) else mem a

move_forward_lem :
    (n d s : ℕ) (mem : Memory) (a : ℕ)
    → (d ≤ s) ⊎ (s + n ≤ d)
    → move_forward n d s mem a ≡ copied d s n mem a
unfolding move_forward
move_forward_lem zero d s mem a h = ground arith
move_forward_lem (suc n) d s mem a h =
    ground (arith, move_forward_lem n (d + 1) (s + 1) (update mem d (mem s)) a)

move_backward_lem :
    (n d s : ℕ) (mem : Memory) (a : ℕ)
    → s < d
    → n ≤ s
    → move_backward n d s mem a ≡ (if leb (d - n) a && ltb a d then mem (a - (d - s)) else mem a)
unfolding move_backward
move_backward_lem zero d s mem a h k = ground arith
move_backward_lem (suc n) d s mem a h k =
    ground (arith, move_backward_lem n (d - 1) (s - 1) (update mem (d - 1) (mem (s - 1))) a)

-- After memmove each byte of the destination is what the source held before, however the two
-- overlap, and every other byte is as it was.
pub memmove_lem :
    (dst src n : ℕ) (mem : Memory) (a : ℕ) → memmove dst src n mem a ≡ copied dst src n mem a
unfolding memmove
memmove_lem dst src n mem a =
    ground (arith, move_backward_lem n (dst + n) (src + n) mem a, move_forward_lem n dst src mem a)
