-- ===== src/Pipe/Write.antt =====
-- `pipewrite` and `piperead` on the queue of a pipe's bytes.
use operating_systems_cs.Base.{
  ℕ, zero, suc, ◌+◌, ◌≡◌, ◌≢◌, refl, ap, ◌∙◌, Bool, true, false, not, ◌||◌, List, [], ◌∷◌, ◌++◌,
  arith, ◌==◌, if◌then◌else◌, Bool-cases, inl, inr, leb, ==_sound, ◌⊎◌, ◌%◌, ◌^◌,
}
use mathlib.Core.List.{append-nil, append_assoc}
use operating_systems_cs.Base.Lists.{length, take, drop}
use operating_systems_cs.Pipe.{
  Pipe, pipe_size, put, is_full, WriteOutcome, wrote, write_fails, write_sleeps, pipewrite,
  copy_out, read_bytes, read_fails, read_sleeps, piperead,
}
use operating_systems_cs.Pipe.Buffer.{
  IsValid, count, contents, full_iff, not_full, put_lem, front_lem, empty_lem,
}

pub take-append_drop {ℓ} : {A : Type ℓ} (n : ℕ) (xs : List A) → take n xs ++ drop n xs ≡ xs
take-append_drop zero xs = refl
take-append_drop (suc n) [] = refl
take-append_drop (suc n) (x ∷ xs) = ap (λ r. x ∷ r) (take-append_drop n xs)

take-nil : (n : ℕ) → take {A = ℕ} n [] ≡ []
take-nil zero = refl
take-nil (suc n) = refl

-- What `pipewrite` does with `bs` when `k` bytes are free.
abbrev pub written : Bool → Bool → ℕ → List ℕ → WriteOutcome
written is_open killed k bs =
    if leb (length bs) k
    then wrote
    else if not is_open || killed
    then write_fails
    else write_sleeps (drop k bs)

written-cons :
    (is_open killed : Bool) (k b : ℕ) (bs : List ℕ)
    → written is_open killed k bs ≡ written is_open killed (suc k) (b ∷ bs)
written-cons is_open killed k b bs = ground arith

-- On a valid pipe with room for k bytes pipewrite appends the first k of its bytes in order; it is
-- done if no more are left, and else fails if the reader is closed or the process killed, and else
-- sleeps with the bytes that are left; the open ends and the validity stay.
pub pipewrite_lem :
    (killed : Bool) (k : ℕ) (bs : List ℕ) (p : Pipe)
    → IsValid p
    → count p + k ≡ pipe_size
    → let (o, p') = pipewrite killed bs p in
      IsValid p'
      × (o ≡ written p.readopen killed k bs)
      × (contents p' ≡ contents p ++ take k bs)
      × (p'.readopen ≡ p.readopen)
      × (p'.writeopen ≡ p.writeopen)
unfolding pipewrite
pipewrite_lem killed k [] p v e =
    (v, ground arith, rw (take-nil k, append-nil (contents p)), refl, refl)
pipewrite_lem killed zero (b ∷ bs) p v e =
    let full : is_full p ≡ true = (full_iff p v).1 (omega arith) in
    rw full (
      ground arith,
      ground arith,
      ground (arith, append-nil (contents p)),
      ground arith,
      ground arith,
    )
pipewrite_lem killed (suc k) (b ∷ bs) p v e =
    let (v', c, q) = put_lem p v b (omega arith) in
    let (v'', o, t, r, w) = pipewrite_lem killed k bs (put b p) v' (omega (arith, c)) in
    rw (not_full p v (omega arith)) (
      v'',
      o ∙ written-cons p.readopen killed k b bs,
      t ∙ rw q (append_assoc (contents p) (b ∷ []) (take k bs)),
      r,
      w,
    )

copy_out_lem :
    (n : ℕ) (p : Pipe)
    → IsValid p
    → let (out, p') = copy_out n p in
      IsValid p' × (out ≡ take n (contents p)) × (contents p' ≡ drop n (contents p))
unfolding copy_out
copy_out_lem zero p v = (v, refl, refl)
copy_out_lem (suc n) p v = elim (Bool-cases (p.nread == p.nwrite)) [
  | inl e ↦ let none_left = empty_lem p v (==_sound _ _ e) in rw (e, none_left) (v, refl, refl)
  | inr ne ↦
      let (v', c, q) = front_lem p v (ground arith) in
      let (v'', t, d) = copy_out_lem n (record p { nread = (p.nread + 1) % 2 ^ 32 }) v' in
      rw (ne, q) (v'', ap (λ r. p.bytes (p.nread % pipe_size) ∷ r) t, d)
]

nonempty : (p : Pipe) → IsValid p → contents p ≡ [] → p.nread ≡ p.nwrite
nonempty p v e = elim (Bool-cases (p.nread == p.nwrite)) [
  | inl h ↦ ==_sound _ _ h
  | inr h ↦ cc (e, (front_lem p v (ground arith)).2)
]

-- On a valid pipe that holds bytes or has no writer piperead returns and removes the oldest bytes,
-- n at most; on an empty pipe with a writer it fails for a killed process, sleeps for another, and
-- changes nothing; the pipe stays valid.
pub piperead_lem :
    (killed : Bool) (n : ℕ) (p : Pipe)
    → IsValid p
    → let (o, p') = piperead killed n p in
      IsValid p'
      × ((contents p ≢ []) ⊎ (p.writeopen ≡ false)
          → (o ≡ read_bytes (take n (contents p))) × (contents p' ≡ drop n (contents p)))
      × (contents p ≡ []
          → p.writeopen ≡ true
          → (o ≡ (if killed then read_fails else read_sleeps)) × (p' ≡ p))
unfolding piperead
piperead_lem killed n p v =
    let (v', t, d) = copy_out_lem n p v in
    (
      ground arith,
      λ h. (ground (arith, empty_lem p v), ground (arith, empty_lem p v)),
      λ e w. (ground (arith, nonempty p v), ground (arith, nonempty p v)),
    )
