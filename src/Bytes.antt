-- ===== src/Bytes.antt =====
-- string.c: the kernel's routines on bytes in memory. An address is a number, `mem a` the byte at
-- address `a`.
pub mod Move
pub mod Fill
pub mod Text
pub mod Compare
mod Tests
use operating_systems_cs.Base.{
  ℕ, zero, suc, ◌+◌, ◌-◌, ◌*◌, ◌/◌, ◌%◌, ◌^◌, Bool, true, false, not, ◌&&◌, ◌||◌, Option, none,
  some, ltb, ◌==◌, if◌then◌else◌, update,
}
use operating_systems_cs.Base.Int.{ℤ, pos, sub_ℕ}

abbrev pub Memory : Type 0
Memory = ℕ → ℕ

-- `stosb` of x86.h: `n` times the low byte of `c`.
pub stosb : ℕ → ℕ → ℕ → Memory → Memory
stosb dst c zero mem = mem
stosb dst c (suc n) mem = stosb (dst + 1) c n (update mem dst (c % 256))

-- A little-endian word.
pub store_word : ℕ → ℕ → Memory → Memory
store_word dst w mem =
    update
      (update (update (update mem dst (w % 256)) (dst + 1) (w / 256 % 256)) (dst + 2)
        (w / 65536 % 256))
      (dst + 3) (w / 16777216 % 256)

-- `stosl`: `n` times the word `w`.
pub stosl : ℕ → ℕ → ℕ → Memory → Memory
unfolding store_word
stosl dst w zero mem = mem
stosl dst w (suc n) mem = stosl (dst + 4) w n (store_word dst w mem)

-- `(c<<24)|(c<<16)|(c<<8)|c` at a byte `c`.
abbrev pub word_of_byte : ℕ → ℕ
word_of_byte c = c * 16777216 + c * 65536 + c * 256 + c

pub memset : ℕ → ℕ → ℕ → Memory → Memory
unfolding stosl stosb
memset dst c n mem =
    if (dst % 4 == 0) && (n % 4 == 0)
    then stosl dst (word_of_byte (c % 256)) (n / 4) mem
    else stosb dst c n mem

-- `int` results are differences of bytes.
pub memcmp : ℕ → ℕ → ℕ → Memory → ℤ
memcmp s1 s2 zero mem = pos 0
memcmp s1 s2 (suc n) mem =
    let rest = memcmp (s1 + 1) (s2 + 1) n mem in
    if not (mem s1 == mem s2) then sub_ℕ (mem s1) (mem s2) else rest

-- `while(n-- > 0) *--d = *--s;`
pub move_backward : ℕ → ℕ → ℕ → Memory → Memory
move_backward zero d s mem = mem
move_backward (suc n) d s mem = move_backward n (d - 1) (s - 1) (update mem (d - 1) (mem (s - 1)))

-- `while(n-- > 0) *d++ = *s++;`
pub move_forward : ℕ → ℕ → ℕ → Memory → Memory
move_forward zero d s mem = mem
move_forward (suc n) d s mem = move_forward n (d + 1) (s + 1) (update mem d (mem s))

pub memmove : ℕ → ℕ → ℕ → Memory → Memory
unfolding move_backward move_forward
memmove dst src n mem =
    if ltb src dst && ltb dst (src + n)
    then move_backward n (dst + n) (src + n) mem
    else move_forward n dst src mem

pub memcpy : ℕ → ℕ → ℕ → Memory → Memory
unfolding memmove
memcpy dst src n mem = memmove dst src n mem

unfoldable pub strncmp : ℕ → ℕ → ℕ → Memory → ℤ
strncmp p q zero mem = pos 0
strncmp p q (suc n) mem =
    let rest = strncmp (p + 1) (q + 1) n mem in
    if not (mem p == 0) && (mem p == mem q) then rest else sub_ℕ (mem p) (mem q)

-- `while(n-- > 0) *s++ = 0;`
pub pad : ℕ → ℕ → Memory → Memory
pad s zero mem = mem
pad s (suc n) mem = pad (s + 1) n (update mem s 0)

pub strncpy : ℕ → ℕ → ℕ → Memory → Memory
unfolding pad
strncpy s t zero mem = mem
strncpy s t (suc n) mem =
    let mem' = update mem s (mem t) in
    let rest = strncpy (s + 1) (t + 1) n mem' in if mem t == 0 then pad (s + 1) n mem' else rest

-- The loop of `safestrcpy` and the last store; `n` is what `--n` leaves, and not below 0.
pub copy_text : ℕ → ℕ → ℕ → Memory → Memory
copy_text s t zero mem = update mem s 0
copy_text s t (suc n) mem =
    let mem' = update mem s (mem t) in
    let rest = copy_text (s + 1) (t + 1) n mem' in
    if mem t == 0 then update mem' (s + 1) 0 else rest

pub safestrcpy : ℕ → ℕ → ℕ → Memory → Memory
unfolding copy_text
safestrcpy s t zero mem = mem
safestrcpy s t (suc n) mem = copy_text s t n mem

-- The loop of `strlen`, from the count `n` on; `none` if the fuel runs out.
pub strlen_from : ℕ → ℕ → ℕ → Memory → Option ℕ
strlen_from zero s n mem = none
strlen_from (suc fuel) s n mem =
    let rest = strlen_from fuel s (n + 1) mem in if mem (s + n) == 0 then some n else rest

pub strlen : ℕ → ℕ → Memory → Option ℕ
unfolding strlen_from
strlen fuel s mem = strlen_from fuel s 0 mem
