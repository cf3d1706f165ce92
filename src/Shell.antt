-- ===== src/Shell.antt =====
-- sh.c: the parser of the shell. A line is its bytes by their places, and `es` is the place of the
-- zero byte that ends it. `malloc` is taken to succeed.
mod Tests
pub mod Tokens
pub mod Ends
pub mod Returns
pub mod Words
use operating_systems_cs.Base.{
  ℕ, zero, suc, ◌+◌, ◌-◌, ◌*◌, Bool, true, false, not, ◌&&◌, ◌||◌, List, [], ◌∷◌, ◌++◌, ltb, leb,
  ◌==◌, if◌then◌else◌, update,
}

-- The places where a word begins and ends.
pub record Word : Type 0 where
  pub start : ℕ
  pub end : ℕ

-- `struct redircmd` less the command that is redirected.
pub record Redirection : Type 0 where
  pub file : Word
  pub mode : ℕ
  pub fd : ℕ

pub data Cmd : Type 0 where
  exec : List Word → Cmd
  redir : Cmd → Redirection → Cmd
  pipe : Cmd → Cmd → Cmd
  list : Cmd → Cmd → Cmd
  back : Cmd → Cmd

-- How a function of the parser ends: with its result and the place that is left in `*ps`.
pub data Parsed {ℓ} (A : Type ℓ) : Type ℓ where
  parsed : A → ℕ → Parsed A
  panics : Parsed A
  out_of_fuel : Parsed A

-- What is done with the result and the place of a call.
pub after {ℓ} : {A B : Type ℓ} → Parsed A → (A → ℕ → Parsed B) → Parsed B
after (parsed a s) k = k a s
after panics k = panics
after out_of_fuel k = out_of_fuel

-- `" \t\r\n\v"` and `"<|>&;()"`
abbrev pub whitespace : List ℕ
whitespace = 32 ∷ 9 ∷ 13 ∷ 10 ∷ 11 ∷ []

abbrev pub symbols : List ℕ
symbols = 60 ∷ 124 ∷ 62 ∷ 38 ∷ 59 ∷ 40 ∷ 41 ∷ []

-- The symbols that `gettoken` takes alone.
abbrev pub single : List ℕ
single = 124 ∷ 40 ∷ 41 ∷ 59 ∷ 38 ∷ 60 ∷ []

pub strchr : List ℕ → ℕ → Bool
strchr [] c = false
strchr (x ∷ xs) c = (x == c) || strchr xs c

abbrev pub maxargs : ℕ
maxargs = 10

-- `O_RDONLY` and `O_WRONLY|O_CREATE`
abbrev pub o_rdonly : ℕ
o_rdonly = 0

abbrev pub o_wronly_create : ℕ
o_wronly_create = 513

-- What `gettoken` returns, and what it leaves in `*q`, `*eq` and `*ps`.
pub record Token : Type 0 where
  pub kind : ℕ
  pub word : Word
  pub next : ℕ

-- The functions that call each other.
pub data Rule : Type 0 where
  line_rule : Rule
  pipe_rule : Rule
  exec_rule : Rule
  block_rule : Rule

module _ (line : ℕ → ℕ) (es : ℕ) where
  pub skip_blanks : (rounds s : ℕ) → ℕ
  skip_blanks zero s = s
  skip_blanks (suc rounds) s =
      let rest = skip_blanks rounds (s + 1) in
      if ltb s es && strchr whitespace (line s) then rest else s

  abbrev pub blanks : ℕ → ℕ
  blanks s = skip_blanks (es - s) s

  pub skip_word : (rounds s : ℕ) → ℕ
  skip_word zero s = s
  skip_word (suc rounds) s =
      let rest = skip_word rounds (s + 1) in
      if ltb s es && not (strchr whitespace (line s)) && not (strchr symbols (line s))
      then rest
      else s

  -- The `switch` of `gettoken`: the kind of the token at `s`, and its end.
  pub switch : ℕ → ℕ × ℕ
  switch s =
      let c = line s in
      if c == 0
      then (0, s)
      else if strchr single c
      then (c, s + 1)
      else if c == 62
      then (if line (s + 1) == 62 then (43, s + 2) else (62, s + 1))
      else (97, skip_word (es - s) s)

  pub gettoken : ℕ → Token
  gettoken s =
      let q = blanks s in
      let (kind, eq) = switch q in
      record { kind = kind; word = record { start = q; end = eq }; next = blanks eq }

  -- With the place that it leaves in `*ps`.
  pub peek : List ℕ → ℕ → Bool × ℕ
  peek toks s = let s' = blanks s in (not (line s' == 0) && strchr toks (line s'), s')

  abbrev pub redirection : (tok : ℕ) → Word → Redirection
  redirection tok w =
      if tok == 60
      then record { file = w; mode = o_rdonly; fd = 0 }
      else record { file = w; mode = o_wronly_create; fd = 1 }

  -- The redirections in their order; `peek` leaves only `<`, `>` and `>>` as tokens.
  pub parseredirs : (fuel s : ℕ) → Parsed (List Redirection)
  parseredirs zero s = out_of_fuel
  parseredirs (suc fuel) s =
      let (more, s1) = peek (60 ∷ 62 ∷ []) s in
      let tok = gettoken s1 in
      let file = gettoken tok.next in
      let rest = parseredirs fuel file.next in
      if not more
      then parsed [] s1
      else if not (file.kind == 97)
      then panics
      else after rest (λ rs s2. parsed (redirection tok.kind file.word ∷ rs) s2)

  -- The loop of `parseexec`: the words and the redirections between them.
  pub parseargs : (fuel argc s : ℕ) → Parsed (List Word × List Redirection)
  parseargs zero argc s = out_of_fuel
  parseargs (suc fuel) argc s =
      let (stop, s1) = peek (124 ∷ 41 ∷ 38 ∷ 59 ∷ []) s in
      let tok = gettoken s1 in
      if stop
      then parsed ([], []) s1
      else if tok.kind == 0
      then parsed ([], []) tok.next
      else if not (tok.kind == 97)
      then panics
      else if leb maxargs (argc + 1)
      then panics
      else after (parseredirs fuel tok.next) (λ rs s2.
        after (parseargs fuel (argc + 1) s2) (λ (ws, rs') s3. parsed (tok.word ∷ ws, rs ++ rs') s3))

  -- `cmd = redircmd(cmd, …)` for each of them.
  pub redirect : Cmd → List Redirection → Cmd
  redirect c [] = c
  redirect c (r ∷ rs) = redirect (redir c r) rs

  -- The functions that call each other, over these calls, and the fuel of the other loops.
  module _ (call : Rule → ℕ → Parsed Cmd) (fuel : ℕ) where
    pub parseblock : ℕ → Parsed Cmd
    parseblock s =
        let (opens, s1) = peek (40 ∷ []) s in
        if not opens
        then panics
        else after (call line_rule (gettoken s1).next) (λ c s2.
          let (closes, s3) = peek (41 ∷ []) s2 in
          if not closes
          then panics
          else after (parseredirs fuel (gettoken s3).next) (λ rs s4. parsed (redirect c rs) s4))

    -- The words go into the EXEC node below the redirections, however they are mixed.
    pub parseexec : ℕ → Parsed Cmd
    parseexec s =
        let (opens, s1) = peek (40 ∷ []) s in
        if opens
        then call block_rule s1
        else after (parseredirs fuel s1) (λ rs s2.
          after (parseargs fuel 0 s2) (λ (ws, rs') s3. parsed (redirect (exec ws) (rs ++ rs')) s3))

    pub parsepipe : ℕ → Parsed Cmd
    parsepipe s = after (call exec_rule s) (λ c s1.
        let (bar, s2) = peek (124 ∷ []) s1 in
        if bar
        then after (call pipe_rule (gettoken s2).next) (λ r s3. parsed (pipe c r) s3)
        else parsed c s2)

  -- The loop of `parseline` over `&`.
  pub parsebacks : (fuel : ℕ) → Cmd → ℕ → Parsed Cmd
  parsebacks zero c s = out_of_fuel
  parsebacks (suc fuel) c s =
      let (amp, s1) = peek (38 ∷ []) s in
      let rest = parsebacks fuel (back c) (gettoken s1).next in if amp then rest else parsed c s1

  module _ (call : Rule → ℕ → Parsed Cmd) (fuel : ℕ) where
    pub parseline : ℕ → Parsed Cmd
    parseline s = after (call pipe_rule s) (λ c s1. after (parsebacks fuel c s1) (λ c2 s2.
        let (semi, s3) = peek (59 ∷ []) s2 in
        if semi
        then after (call line_rule (gettoken s3).next) (λ r s4. parsed (list c2 r) s4)
        else parsed c2 s3))

  -- The functions, with fuel.
  pub parse : (fuel : ℕ) → Rule → ℕ → Parsed Cmd
  parse zero r s = out_of_fuel
  parse (suc fuel) line_rule s = parseline (parse fuel) fuel s
  parse (suc fuel) pipe_rule s = parsepipe (parse fuel) fuel s
  parse (suc fuel) exec_rule s = parseexec (parse fuel) fuel s
  parse (suc fuel) block_rule s = parseblock (parse fuel) fuel s

-- The zero bytes that `nulterminate` puts behind words.
pub end_words : List Word → (ℕ → ℕ) → ℕ → ℕ
end_words [] line = line
end_words (w ∷ ws) line = end_words ws (update line w.end 0)

pub nulterminate : Cmd → (ℕ → ℕ) → ℕ → ℕ
nulterminate (exec ws) line = end_words ws line
nulterminate (redir c r) line = update (nulterminate c line) r.file.end 0
nulterminate (pipe l r) line = nulterminate r (nulterminate l line)
nulterminate (list l r) line = nulterminate r (nulterminate l line)
nulterminate (back c) line = nulterminate c line

-- From the place `s`, where the line begins: the command, and the line that it points into. Enough
-- fuel for every line is given.
pub parsecmd : (line : ℕ → ℕ) (s es : ℕ) → Parsed (Cmd × (ℕ → ℕ))
parsecmd line s es = after (parse line es (4 * (es - s) + 4) line_rule s) (λ c s1.
    let s2 = blanks line es s1 in if s2 == es then parsed (c, nulterminate c line) s2 else panics)
