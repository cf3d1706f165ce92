-- ===== src/Pipe/Stream.antt =====
-- Any sequence of the steps of readers, writers and closers, whoever takes them.
use operating_systems_cs.Base.{
  ℕ, ◌-◌, ◌≡◌, ◌≢◌, ◌⊎◌, refl, sym, ap, ◌∙◌, Bool, true, false, List, [], ◌∷◌, ◌++◌, arith,
  Bool-cases, inl, inr,
}
use mathlib.Core.List.{append-nil, append_assoc}
use operating_systems_cs.Base.Lists.{take}
use operating_systems_cs.Pipe.{
  Pipe, pipe_size, pipeclose, pipewrite, ReadOutcome, read_bytes, read_fails, read_sleeps, piperead,
}
use operating_systems_cs.Pipe.Buffer.{IsValid, count, contents}
use operating_systems_cs.Pipe.Write.{take-append_drop, pipewrite_lem, piperead_lem}

pub data Event : Type 0 where
  writes : Bool → List ℕ → Event
  reads : Bool → ℕ → Event
  closes : Bool → Event

abbrev pub delivered : ReadOutcome → List ℕ
delivered (read_bytes bs) = bs
delivered read_fails = []
delivered read_sleeps = []

-- The bytes that readers get, and the pipe at the end.
unfoldable pub run : List Event → Pipe → List ℕ × Pipe
run [] p = ([], p)
run (writes killed bs ∷ es) p = run es (pipewrite killed bs p).1
run (reads killed n ∷ es) p =
    let (o, p') = piperead killed n p in let rest = run es p' in (delivered o ++ rest.0, rest.1)
run (closes writable ∷ es) p = run es (pipeclose writable p).0

-- The bytes that writers put in: of each piece, what fits.
unfoldable pub accepted : List Event → Pipe → List ℕ
accepted [] p = []
accepted (writes killed bs ∷ es) p =
    take (pipe_size - count p) bs ++ accepted es (pipewrite killed bs p).1
accepted (reads killed n ∷ es) p = accepted es (piperead killed n p).1
accepted (closes writable ∷ es) p = accepted es (pipeclose writable p).0

nil_or_not : (xs : List ℕ) → (xs ≡ []) ⊎ (xs ≢ [])
nil_or_not [] = inl refl
nil_or_not (x ∷ xs) = inr (λ e. cc e)

read_step :
    (killed : Bool) (n : ℕ) (p : Pipe)
    → IsValid p
    → let (o, p') = piperead killed n p in IsValid p' × (delivered o ++ contents p' ≡ contents p)
read_step killed n p v =
    let (v', got, none_got) = piperead_lem killed n p v in
    (
      v',
      elim (Bool-cases p.writeopen) [
        | inr closed ↦ let (o, d) = got (inr closed) in rw (o, d) (take-append_drop n (contents p))
        | inl is_open ↦ elim (nil_or_not (contents p)) [
          | inl e ↦
              let (o, same) = none_got e is_open in
              rw (o, same) (elim (Bool-cases killed) [ inl k ↦ rw k | inr k ↦ rw k ])
          | inr ne ↦ let (o, d) = got (inl ne) in rw (o, d) (take-append_drop n (contents p))
        ]
      ],
    )

close_step :
    (writable : Bool) (p : Pipe)
    → IsValid p
    → IsValid (pipeclose writable p).0 × (contents (pipeclose writable p).0 ≡ contents p)
unfolding pipeclose contents
close_step true p v =
    (record { nread_word = v.nread_word; nwrite_word = v.nwrite_word; fits = v.fits }, refl)
close_step false p v =
    (record { nread_word = v.nread_word; nwrite_word = v.nwrite_word; fits = v.fits }, refl)

-- From a valid pipe, after any sequence of writes, reads and closes by anybody, also where the
-- counters wrap, the bytes that readers got followed by the bytes in the pipe are the bytes that
-- were in the pipe followed by those that writers put in, and the pipe is valid.
pub run-fifo :
    (es : List Event) (p : Pipe)
    → IsValid p
    → let (out, p') = run es p in IsValid p' × (out ++ contents p' ≡ contents p ++ accepted es p)
unfolding run accepted
run-fifo [] p v = (v, sym (append-nil (contents p)))
run-fifo (writes killed bs ∷ es) p v =
    let (v', o, t, r, w) =
      pipewrite_lem killed (pipe_size - count p) bs p v (omega (arith, v.fits)) in
    let (v'', e) = run-fifo es (pipewrite killed bs p).1 v' in
    (v'', e ∙ rw t (append_assoc (contents p) _ _))
run-fifo (reads killed n ∷ es) p v =
    let (v', q) = read_step killed n p v in
    let (v'', e) = run-fifo es (piperead killed n p).1 v' in
    (
      v'',
      append_assoc (delivered (piperead killed n p).0) _ _
          ∙ ap (λ c. delivered (piperead killed n p).0 ++ c) e
          ∙ sym (append_assoc (delivered (piperead killed n p).0) _ _)
          ∙ ap (λ c. c ++ accepted es (piperead killed n p).1) q,
    )
run-fifo (closes writable ∷ es) p v =
    let (v', q) = close_step writable p v in
    let (v'', e) = run-fifo es (pipeclose writable p).0 v' in
    (v'', e ∙ ap (λ c. c ++ accepted es (pipeclose writable p).0) q)
