-- ===== src/Console/Line.antt =====
-- The line discipline: lines that readers can have, and the line that is typed.
use operating_systems_cs.Base.{
  ℕ, zero, suc, ◌+◌, ◌-◌, ◌%◌, ◌^◌, ◌<◌, ◌≤◌, ◌≡◌, ◌≢◌, refl, Bool, false, not, ◌&&◌, ◌||◌, List,
  [], ◌∷◌, ◌++◌, arith, ltb, ◌==◌, if◌then◌else◌, update,
}
use mathlib.Core.List.{append-nil, append_assoc}
use operating_systems_cs.Base.Lists.{length, length-append}
use operating_systems_cs.Console.{
  input_buf, Input, add32, sub32, ReadOutcome, returned, fails, sleeps,
}

-- The bytes that readers can have, oldest first, and the line that is typed, last first.
pub record Line : Type 0 where
  pub ready : List ℕ
  pub pending : List ℕ

-- A line in the order of its bytes.
abbrev pub in_order : List ℕ → List ℕ
in_order [] = []
in_order (c ∷ cs) = in_order cs ++ (c ∷ [])

abbrev pub but_last : List ℕ → List ℕ
but_last [] = []
but_last (c ∷ cs) = cs

-- What a byte does to the lines.
abbrev pub type_byte : (c : ℕ) → Line → Line
type_byte c l =
    if (c == 10) || (c == 4) || (length l.ready + length l.pending + 1 == input_buf)
    then record { ready = l.ready ++ in_order (c ∷ l.pending); pending = [] }
    else record l { pending = c ∷ l.pending }

-- What a key does: ^P nothing, ^U kills the line, ^H and DEL its last byte, and other bytes are typed
-- while there is room, a carriage return as a newline.
unfoldable pub type_key : (c : ℕ) → Line → Line
type_key c l =
    if c == 16
    then l
    else if c == 21
    then record l { pending = [] }
    else if (c == 8) || (c == 127)
    then record l { pending = but_last l.pending }
    else if not (c == 0) && ltb (length l.ready + length l.pending) input_buf
    then type_byte (if c == 13 then 10 else c) l
    else l

-- What a reader takes of the bytes that are ready: up to a newline, which it gets, or up to ^D, which
-- it gets as an end of file, at once or the next time.
unfoldable pub read_line : (n target : ℕ) (killed : Bool) → List ℕ → List ℕ × ReadOutcome × List ℕ
read_line zero target killed cs = ([], returned target, cs)
read_line (suc n) target killed [] = ([], (if killed then fails else sleeps (suc n)), [])
read_line (suc n) target killed (c ∷ cs) =
    let rest = read_line n target killed cs in
    if c == 4
    then ([], returned (target - suc n), (if ltb (suc n) target then c ∷ cs else cs))
    else if c == 10
    then (c ∷ [], returned (target - n), cs)
    else (c ∷ rest.0, rest.1, rest.2)

-- The bytes `xs` stand in the buffer from index `r` on.
unfoldable pub From : (d : ℕ → ℕ) (r : ℕ) → List ℕ → Type 0
From d r [] = Unit
From d r (x ∷ xs) = (d (r % input_buf) ≡ x) × From d (add32 r 1) xs

-- They stand there back from index `e`; none is a newline.
unfoldable pub Back : (d : ℕ → ℕ) (e : ℕ) → List ℕ → Type 0
Back d e [] = Unit
Back d e (x ∷ xs) = (d (sub32 e 1 % input_buf) ≡ x) × (x ≢ 10) × Back d (sub32 e 1) xs

-- The input buffer holds these lines, also where its indices wrap.
pub record Represents (i : Input) (l : Line) : Type 0 where
  pub r_word : i.r < 2 ^ 32
  pub w_at : i.w ≡ add32 i.r (length l.ready)
  pub e_at : i.e ≡ add32 i.w (length l.pending)
  pub room : length l.ready + length l.pending ≤ input_buf
  pub ready : From i.buf i.r l.ready
  pub pending : Back i.buf i.e l.pending

pub From-update :
    (d : ℕ → ℕ) (r p n b : ℕ) (xs : List ℕ)
    → r < 2 ^ 32
    → p ≡ add32 r n
    → length xs ≤ n
    → n < input_buf
    → From d r xs
    → From (update d (p % input_buf) b) r xs
unfolding From
From-update d r p n b [] h e le lt f = tt
From-update d r p zero b (x ∷ xs) h e le lt f = absurd (omega arith)
From-update d r p (suc n) b (x ∷ xs) h e le lt (f, fs) =
    let ne : (r % input_buf == p % input_buf) ≡ false = ground arith in
    (
      rw ne f,
      From-update d (add32 r 1) p n b xs (omega arith) (omega arith) (omega arith) (omega arith) fs,
    )

pub Back-update :
    (d : ℕ → ℕ) (e p n b : ℕ) (xs : List ℕ)
    → e < 2 ^ 32
    → p ≡ add32 e n
    → n + length xs < input_buf
    → Back d e xs
    → Back (update d (p % input_buf) b) e xs
unfolding Back
Back-update d e p n b [] h at lt f = tt
Back-update d e p n b (x ∷ xs) h at lt (f, no_newline, fs) =
    let ne : (sub32 e 1 % input_buf == p % input_buf) ≡ false = ground arith in
    (
      rw ne f,
      no_newline,
      Back-update d (sub32 e 1) p (n + 1) b xs (omega arith) (omega arith) (omega arith) fs,
    )

pub From-last :
    (d : ℕ → ℕ) (r x : ℕ) (xs : List ℕ)
    → r < 2 ^ 32
    → From d r xs
    → d (add32 r (length xs) % input_buf) ≡ x
    → From d r (xs ++ (x ∷ []))
unfolding From
From-last d r x [] h f e = let here : add32 r 0 ≡ r = omega arith in (rw here at e, tt)
From-last d r x (y ∷ xs) h (f, fs) e =
    let next : add32 (add32 r 1) (length xs) ≡ add32 r (suc (length xs)) = omega arith in
    (f, From-last d (add32 r 1) x xs (omega arith) fs (rw next e))

pub length-in_order : (xs : List ℕ) → length (in_order xs) ≡ length xs
length-in_order [] = refl
length-in_order (x ∷ xs) =
    omega (arith, length-append {0} (in_order xs) (x ∷ []), length-in_order xs)

-- A line that is typed joins the bytes before it.
pub From-Back :
    (d : ℕ → ℕ) (r w e : ℕ) (xs ys : List ℕ)
    → r < 2 ^ 32
    → w ≡ add32 r (length xs)
    → e ≡ add32 w (length ys)
    → From d r xs
    → Back d e ys
    → From d r (xs ++ in_order ys)
unfolding Back
From-Back d r w e xs [] h hw he f b = rw (append-nil xs) f
From-Back d r w e xs (y ∷ ys) h hw he f (b, no_newline, bs) =
    let before : From d r (xs ++ in_order ys) =
      From-Back d r w (sub32 e 1) xs ys h hw (omega arith) f bs in
    let all : length (xs ++ in_order ys) ≡ length xs + length ys =
      omega (arith, length-append {0} xs (in_order ys), length-in_order ys) in
    let last : add32 r (length (xs ++ in_order ys)) ≡ sub32 e 1 = omega arith in
    rw (append_assoc xs (in_order ys) (y ∷ [])) at
      (From-last d r y (xs ++ in_order ys) h before (rw last b))
