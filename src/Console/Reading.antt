-- ===== src/Console/Reading.antt =====
-- Readers and keys, in any order.
use operating_systems_cs.Base.{
  ℕ, zero, suc, ◌%◌, ◌≡◌, refl, ap, ◌∙◌, inl, inr, Bool, true, false, List, [], ◌∷◌, arith, ltb,
  ◌==◌, Bool-cases,
}
use operating_systems_cs.Base.Lists.{AllLe}
use operating_systems_cs.Console.Keys.{type_keys, consoleintr-Represents}
use operating_systems_cs.Console.Line.{Line, read_line, From, Represents}
use operating_systems_cs.Console.{input_buf, Input, add32, consoleintr, ReadOutcome, read_loop}

-- A read of the buffer does what a read of the bytes that are ready does.
abbrev Reads : (n target : ℕ) (killed : Bool) → Input → Line → Type 0
Reads n target killed i l =
    let (bs, o, i') = read_loop n target killed i in
    let (cs, p, ready) = read_line n target killed l.ready in
    (bs ≡ cs) × (o ≡ p) × Represents i' (record l { ready = ready })

next-Represents :
    (i : Input) (c : ℕ) (cs ys : List ℕ)
    → Represents i (record { ready = c ∷ cs; pending = ys })
    → Represents (record i { r = add32 i.r 1 }) (record { ready = cs; pending = ys })
unfolding From
next-Represents i c cs ys v = record {
  r_word = omega arith;
  w_at = omega (arith, v.w_at, v.r_word);
  e_at = v.e_at;
  room = omega (arith, v.room);
  ready = v.ready.1;
  pending = v.pending;
}

read_loop-Reads :
    (n target : ℕ) (killed : Bool) (i : Input) (xs ys : List ℕ)
    → Represents i (record { ready = xs; pending = ys })
    → Reads n target killed i (record { ready = xs; pending = ys })
unfolding read_loop read_line From
read_loop-Reads zero target killed i xs ys v = (refl, refl, v)
read_loop-Reads (suc n) target killed i [] ys v =
    let none_ready : (i.r == i.w) ≡ true = ground (arith, v.w_at, v.r_word) in
    rw none_ready (refl, refl, v)
read_loop-Reads (suc n) target killed i (c ∷ cs) ys v =
    let some_ready : (i.r == i.w) ≡ false = ground (arith, v.w_at, v.r_word, v.room) in
    let byte : i.buf (i.r % input_buf) ≡ c = v.ready.0 in
    let (bs, o, rest) =
      read_loop-Reads n target killed (record i { r = add32 i.r 1 }) cs ys
        (next-Represents i c cs ys v) in
    let next = next-Represents i c cs ys v in
    rw (some_ready, byte)
      (elim (Bool-cases (c == 4)) [
        | inl end_of_file ↦ elim (Bool-cases (ltb (suc n) target)) [
          | inl later ↦ rw (end_of_file, later) (refl, refl, v)
          | inr now ↦ rw (end_of_file, now) (refl, refl, next)
        ]
        | inr c1 ↦ elim (Bool-cases (c == 10)) [
          | inl newline ↦ rw (c1, newline) (refl, refl, next)
          | inr c2 ↦ rw (c1, c2) (ap (λ ds. c ∷ ds) bs, o, rest)
        ]
      ])

pub data Event : Type 0 where
  keys : List ℕ → Event
  read : (n target : ℕ) (killed : Bool) → Event

-- What each read returns or waits for, and the bytes that it stores; and the buffer at the end.
unfoldable pub run : List Event → Input → List (List ℕ × ReadOutcome) × Input
run [] i = ([], i)
run (keys cs ∷ es) i = run es (consoleintr cs i).0
run (read n target killed ∷ es) i =
    let (bs, o, i') = read_loop n target killed i in
    let (os, i'') = run es i' in ((bs, o) ∷ os, i'')

-- The same on lines.
pub run_lines : List Event → Line → List (List ℕ × ReadOutcome) × Line
run_lines [] l = ([], l)
run_lines (keys cs ∷ es) l = run_lines es (type_keys cs l)
run_lines (read n target killed ∷ es) l =
    let (bs, o, ready) = read_line n target killed l.ready in
    let (os, l') = run_lines es (record l { ready = ready }) in ((bs, o) ∷ os, l')

-- Every key is a byte.
abbrev pub AreBytes : List Event → Type 0
AreBytes [] = Unit
AreBytes (keys cs ∷ es) = AllLe 255 cs × AreBytes es
AreBytes (read n target killed ∷ es) = AreBytes es

-- From an input buffer that holds lines, also where its 32-bit indices wrap, after any sequence of
-- key interrupts, with bytes as keys, and of reads and continued reads, every read stores, returns
-- or waits for what it does on a plain line discipline, where ^U kills the line that is typed, ^H
-- and DEL its last byte, a newline, ^D or a full buffer gives it to the readers, and a read takes a
-- line or up to ^D; and the buffer holds the lines of that discipline.
pub run-run_lines :
    (es : List Event) (i : Input) (l : Line)
    → AreBytes es
    → Represents i l
    → ((run es i).0 ≡ (run_lines es l).0) × Represents (run es i).1 (run_lines es l).1
unfolding run run_lines
run-run_lines [] i l bytes v = (refl, v)
run-run_lines (keys cs ∷ es) i l (b, bytes) v =
    run-run_lines es (consoleintr cs i).0 (type_keys cs l) bytes (consoleintr-Represents cs i l b v)
run-run_lines (read n target killed ∷ es) i l bytes v =
    let (same, outcome, kept) = read_loop-Reads n target killed i l.ready l.pending v in
    let (outs, end) =
      run-run_lines es (read_loop n target killed i).2
        (record l { ready = (read_line n target killed l.ready).2 }) bytes kept in
    (
      ap (λ (p : List ℕ × ReadOutcome). p ∷ (run es (read_loop n target killed i).2).0)
            (λ j. (same j, outcome j))
          ∙ ap
              (λ os.
                ((read_line n target killed l.ready).0, (read_line n target killed l.ready).1) ∷ os)
              outs,
      end,
    )
