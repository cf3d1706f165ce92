-- ===== src/Console.antt =====
-- console.c: the input buffer of the console. A critical section under `cons.lock` is one step; a
-- read that sleeps is made again, with what is left of it, when it is woken. The screen is the list
-- of what `consputc` was given, the last first.
pub mod Line
pub mod Keys
pub mod Reading
mod Tests
use operating_systems_cs.Base.{
  ℕ, zero, suc, ◌+◌, ◌-◌, ◌%◌, ◌^◌, Bool, true, false, not, ◌&&◌, ◌||◌, List, [], ◌∷◌, ltb, ◌==◌,
  if◌then◌else◌, update,
}

abbrev pub input_buf : ℕ
input_buf = 128

-- `BACKSPACE`
abbrev pub backspace : ℕ
backspace = 256

-- `input`, and the screen.
pub record Input : Type 0 where
  pub buf : ℕ → ℕ
  pub r : ℕ
  pub w : ℕ
  pub e : ℕ
  pub screen : List ℕ

abbrev pub add32 : ℕ → ℕ → ℕ
add32 a b = (a + b) % 2 ^ 32

abbrev pub sub32 : ℕ → ℕ → ℕ
sub32 a b = (a + 2 ^ 32 - b) % 2 ^ 32

-- `input.e--; consputc(BACKSPACE)`
pub erase : Input → Input
erase i = record i { e = sub32 i.e 1; screen = backspace ∷ i.screen }

-- The loop for `C('U')`, which ends at `w`.
pub kill_line : (rounds : ℕ) → Input → Input
kill_line zero i = i
kill_line (suc rounds) i =
    let rest = kill_line rounds (erase i) in
    if not (i.e == i.w) && not (i.buf (sub32 i.e 1 % input_buf) == 10) then rest else i

-- `input.buf[input.e++ % INPUT_BUF] = c; consputc(c)`, where `buf` holds bytes.
pub store : (c : ℕ) → Input → Input
store c i = record i {
  buf = update i.buf (i.e % input_buf) (c % 256);
  e = add32 i.e 1;
  screen = c ∷ i.screen;
}

-- A line that ends is given to the readers, who are woken.
pub commit_line : (c : ℕ) → Input → Input
commit_line c i =
    if (c == 10) || (c == 4) || (i.e == add32 i.r input_buf) then record i { w = i.e } else i

-- The `switch` of `consoleintr`.
pub handle_key : (c : ℕ) → Input → Input
handle_key c i =
    if c == 16
    then i
    else if c == 21
    then kill_line (sub32 i.e i.w) i
    else if (c == 8) || (c == 127)
    then (if i.e == i.w then i else erase i)
    else if not (c == 0) && ltb (sub32 i.e i.r) input_buf
    then (let c' = if c == 13 then 10 else c in commit_line c' (store c' i))
    else i

-- On the keys that `getc` returns before it returns a negative number; `true` where `procdump` is
-- called at the end.
pub consoleintr : List ℕ → Input → Input × Bool
consoleintr [] i = (i, false)
consoleintr (c ∷ cs) i = let (i', dump) = consoleintr cs (handle_key c i) in (i', (c == 16) || dump)

-- How `consoleread` ends, or with how many bytes to go it sleeps.
pub data ReadOutcome : Type 0 where
  returned : ℕ → ReadOutcome
  fails : ReadOutcome
  sleeps : ℕ → ReadOutcome

-- The loop of `consoleread` with `n` bytes to go: the bytes stored at `dst`, in order.
pub read_loop : (n target : ℕ) (killed : Bool) → Input → List ℕ × ReadOutcome × Input
read_loop zero target killed i = ([], returned target, i)
read_loop (suc n) target killed i =
    let c = i.buf (i.r % input_buf) in
    let i' = record i { r = add32 i.r 1 } in
    let rest = read_loop n target killed i' in
    if i.r == i.w
    then ([], (if killed then fails else sleeps (suc n)), i)
    else if c == 4
    then ([], returned (target - suc n), (if ltb (suc n) target then i else i'))
    else if c == 10
    then (c ∷ [], returned (target - n), i')
    else (c ∷ rest.0, rest.1, rest.2)

-- The call, and its continuation where it sleeps.
pub consoleread : (n : ℕ) (killed : Bool) → Input → List ℕ × ReadOutcome × Input
consoleread n killed i = read_loop n n killed i
