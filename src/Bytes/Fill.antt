-- ===== src/Bytes/Fill.antt =====
-- `memset`, by bytes or by words, fills with one byte.
use operating_systems_cs.Base.{
  ℕ, zero, suc, ◌+◌, ◌*◌, ◌/◌, ◌%◌, ◌<◌, ◌≡◌, ◌&&◌, arith, ltb, leb, if◌then◌else◌, update,
}
use operating_systems_cs.Bytes.{Memory, stosb, store_word, stosl, word_of_byte, memset}

-- What a fill of `n` bytes with the byte `c` leaves at `a`.
abbrev pub filled : ℕ → ℕ → ℕ → Memory → ℕ → ℕ
filled dst c n mem a = if leb dst a && ltb a (dst + n) then c else mem a

stosb_lem :
    (n dst c : ℕ) (mem : Memory) (a : ℕ) → stosb dst c n mem a ≡ filled dst (c % 256) n mem a
unfolding stosb
stosb_lem zero dst c mem a = ground arith
stosb_lem (suc n) dst c mem a = ground (arith, stosb_lem n (dst + 1) c (update mem dst (c % 256)) a)

store_word_lem :
    (dst c : ℕ) (mem : Memory) (a : ℕ)
    → c < 256
    → store_word dst (word_of_byte c) mem a ≡ filled dst c 4 mem a
unfolding store_word
store_word_lem dst c mem a h =
    let b0 : word_of_byte c % 256 ≡ c = omega arith in
    let b1 : word_of_byte c / 256 % 256 ≡ c = omega arith in
    let b2 : word_of_byte c / 65536 % 256 ≡ c = omega arith in
    let b3 : word_of_byte c / 16777216 % 256 ≡ c = omega arith in rw (b0, b1, b2, b3) (ground arith)

stosl_lem :
    (n dst c : ℕ) (mem : Memory) (a : ℕ)
    → c < 256
    → stosl dst (word_of_byte c) n mem a ≡ filled dst c (n * 4) mem a
unfolding stosl
stosl_lem zero dst c mem a h = ground arith
stosl_lem (suc n) dst c mem a h = ground (
  arith,
  stosl_lem n (dst + 4) c (store_word dst (word_of_byte c) mem) a,
  store_word_lem dst c mem a,
)

-- memset leaves the low byte of c in each of the n bytes, whether it stores bytes or words, and
-- every other byte is as it was.
pub memset_lem :
    (dst c n : ℕ) (mem : Memory) (a : ℕ) → memset dst c n mem a ≡ filled dst (c % 256) n mem a
unfolding memset
memset_lem dst c n mem a =
    ground (arith, stosb_lem n dst c mem a, stosl_lem (n / 4) dst (c % 256) mem a)
