-- ===== src/Console/Keys.antt =====
-- `consoleintr` is the line discipline.
use operating_systems_cs.Base.{
  ℕ, ◌+◌, ◌%◌, ◌<◌, ◌≡◌, ◌≢◌, inl, inr, true, false, not, ◌&&◌, ◌||◌, List, [], ◌∷◌, ◌++◌, arith,
  ltb, ◌==◌, ==_refl, Bool-cases, if◌then◌else◌,
}
use mathlib.Core.List.{append_assoc}
use operating_systems_cs.Base.Lists.{length, length-append, AllLe}
use operating_systems_cs.Console.Line.{
  Line, in_order, but_last, type_byte, type_key, From, Back, Represents, From-update, Back-update,
  From-last, From-Back, length-in_order,
}
use operating_systems_cs.Console.{
  input_buf, Input, add32, sub32, erase, kill_line, store, commit_line, handle_key, consoleintr,
}

abbrev line : (ready pending : List ℕ) → Line
line xs ys = record { ready = xs; pending = ys }

erase-Represents :
    (i : Input) (x : ℕ) (xs ys : List ℕ)
    → Represents i (line xs (x ∷ ys))
    → Represents (erase i) (line xs ys)
unfolding erase Back
erase-Represents i x xs ys v = record {
  r_word = v.r_word;
  w_at = v.w_at;
  e_at = omega (arith, v.e_at, v.w_at, v.room);
  room = omega (arith, v.room);
  ready = v.ready;
  pending = v.pending.2;
}

kill_line-Represents :
    (i : Input) (xs ys : List ℕ)
    → Represents i (line xs ys)
    → Represents (kill_line (length ys) i) (line xs [])
unfolding kill_line Back
kill_line-Represents i xs [] v = v
kill_line-Represents i xs (y ∷ ys) v =
    let apart : (i.e == i.w) ≡ false = ground (arith, v.e_at, v.w_at, v.room) in
    let no_newline : (i.buf (sub32 i.e 1 % input_buf) == 10) ≡ false =
      ground (arith, v.pending.0, v.pending.1) in
    rw (apart, no_newline) (kill_line-Represents (erase i) xs ys (erase-Represents i y xs ys v))

module _ (i : Input) (c : ℕ) (xs ys : List ℕ) (v : Represents i (line xs ys)) where
  typed : sub32 i.e i.w ≡ length ys
  typed = omega (arith, v.e_at, v.w_at, v.room)

  held : sub32 i.e i.r ≡ length xs + length ys
  held = omega (arith, v.e_at, v.w_at, v.room, v.r_word)

  backspace-Represents : Represents (if i.e == i.w then i else erase i) (line xs (but_last ys))
  backspace-Represents = split ys v
    where
      split :
          (ys : List ℕ)
          → Represents i (line xs ys)
          → Represents (if i.e == i.w then i else erase i) (line xs (but_last ys))
      split [] v =
          let none_typed : (i.e == i.w) ≡ true = ground (arith, v.e_at, v.w_at) in rw none_typed v
      split (y ∷ ys) v =
          let apart : (i.e == i.w) ≡ false = ground (arith, v.e_at, v.w_at, v.room) in
          rw apart (erase-Represents i y xs ys v)

  -- A byte that is stored.
  module _ (byte : c < 256) (free : length xs + length ys < input_buf) where
    ready_stays : From (store c i).buf i.r xs
    unfolding store
    ready_stays =
        From-update i.buf i.r i.e (length xs + length ys) (c % 256) xs v.r_word
          (omega (arith, v.e_at, v.w_at)) (omega arith) free v.ready

    pending_stays : Back (store c i).buf i.e ys
    unfolding store
    pending_stays =
        Back-update i.buf i.e i.e 0 (c % 256) ys (omega (arith, v.e_at)) (omega (arith, v.e_at))
          (omega arith) v.pending

    stored : (store c i).buf (i.e % input_buf) ≡ c
    unfolding store
    stored = let same : c % 256 ≡ c = omega arith in rw (==_refl (i.e % input_buf)) same

    keep-Represents : c ≢ 10 → Represents (store c i) (line xs (c ∷ ys))
    unfolding store Back
    keep-Represents no_newline = record {
      r_word = v.r_word;
      w_at = v.w_at;
      e_at = omega (arith, v.e_at);
      room = omega arith;
      ready = ready_stays;
      pending =
          (let back : sub32 (add32 i.e 1) 1 ≡ i.e = omega (arith, v.e_at) in
            rw back (stored, no_newline, pending_stays));
    }

    commit-Represents :
        Represents (record (store c i) { w = (store c i).e }) (line (xs ++ in_order (c ∷ ys)) [])
    unfolding store Back
    commit-Represents =
        let all : length (xs ++ in_order ys) ≡ length xs + length ys =
          omega (arith, length-append {0} xs (in_order ys), length-in_order ys) in
        let more : length (xs ++ in_order (c ∷ ys)) ≡ length xs + length ys + 1 =
          omega (arith, length-append {0} xs (in_order (c ∷ ys)), length-in_order (c ∷ ys)) in
        let last : add32 i.r (length (xs ++ in_order ys)) ≡ i.e = omega (arith, v.e_at, v.w_at) in
        let text : From (store c i).buf i.r (xs ++ in_order ys) =
          From-Back (store c i).buf i.r i.w i.e xs ys v.r_word v.w_at v.e_at ready_stays
            pending_stays in
        record {
          r_word = v.r_word;
          w_at = omega (arith, v.e_at, v.w_at);
          e_at = omega arith;
          room = omega arith;
          ready =
              rw (append_assoc xs (in_order ys) (c ∷ [])) at (
                From-last (store c i).buf i.r c (xs ++ in_order ys) v.r_word text (rw last stored));
          pending = tt;
        }

    type_byte-Represents : Represents (commit_line c (store c i)) (type_byte c (line xs ys))
    unfolding commit_line store
    type_byte-Represents =
        let full : (add32 i.e 1 == add32 i.r input_buf) ≡ (length xs + length ys + 1 == input_buf) =
          ground (arith, v.e_at, v.w_at, v.r_word) in
        rw full
          (elim (Bool-cases ((c == 10) || (c == 4) || (length xs + length ys + 1 == input_buf))) [
            | inl ends ↦ rw ends commit-Represents
            | inr more ↦ rw more (keep-Represents (ground arith))
          ])

pub handle_key-Represents :
    (c : ℕ) (i : Input) (l : Line)
    → c < 256
    → Represents i l
    → Represents (handle_key c i) (type_key c l)
unfolding handle_key type_key
handle_key-Represents c i l byte v =
    let xs : List ℕ = l.ready in
    let ys : List ℕ = l.pending in
    elim (Bool-cases (c == 16)) [
      | inl listing ↦ rw listing v
      | inr c1 ↦ elim (Bool-cases (c == 21)) [
        | inl kill ↦ rw (c1, kill, typed i c xs ys v) (kill_line-Represents i xs ys v)
        | inr c2 ↦ elim (Bool-cases ((c == 8) || (c == 127))) [
          | inl back ↦ rw (c1, c2, back) (backspace-Represents i c xs ys v)
          | inr c3 ↦ elim (Bool-cases (not (c == 0) && ltb (length xs + length ys) input_buf)) [
            | inr refused ↦ rw (c1, c2, c3, held i c xs ys v, refused) v
            | inl taken ↦
                rw (c1, c2, c3, held i c xs ys v, taken)
                  (type_byte-Represents i (if c == 13 then 10 else c) xs ys v (ground arith)
                    (ground arith))
          ]
        ]
      ]
    ]

-- What a run of `consoleintr` types.
pub type_keys : List ℕ → Line → Line
type_keys [] l = l
type_keys (c ∷ cs) l = type_keys cs (type_key c l)

-- An interrupt keeps the buffer in step with the discipline, key by key.
pub consoleintr-Represents :
    (cs : List ℕ) (i : Input) (l : Line)
    → AllLe 255 cs
    → Represents i l
    → Represents (consoleintr cs i).0 (type_keys cs l)
unfolding consoleintr type_keys
consoleintr-Represents [] i l bytes v = v
consoleintr-Represents (c ∷ cs) i l (byte, bytes) v =
    consoleintr-Represents cs (handle_key c i) (type_key c l) bytes
      (handle_key-Represents c i l (omega arith) v)
