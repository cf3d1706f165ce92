-- ===== src/Shell/Words.antt =====
-- Lines of words and blanks.
pub mod Simple
pub mod Command
pub mod Strings
use operating_systems_cs.Base.{
  ℕ, zero, suc, ◌+◌, ◌-◌, ◌*◌, ◌≤◌, ◌<◌, ◌≡◌, ◌≢◌, refl, sym, ap, ◌∙◌, ◌⊎◌, inl, inr, Bool, true,
  false, not, ◌&&◌, ◌||◌, List, [], ◌∷◌, ◌++◌, arith, ltb, leb, ◌==◌, ==_refl, ==_sound, ==_ne,
  lt→ltb, Bool-cases, if◌then◌else◌,
}
use operating_systems_cs.Base.Lists.{length}
use operating_systems_cs.Shell.Tokens.{AtToken, skip_blanks-AtToken}
use operating_systems_cs.Shell.{
  Word, Redirection, Cmd, exec, Parsed, parsed, panics, out_of_fuel, after, whitespace, symbols,
  single, strchr, maxargs, Token, Rule, line_rule, pipe_rule, exec_rule, skip_blanks, blanks,
  skip_word, switch, gettoken, peek, parseredirs, parseargs, redirect, parseexec, parsepipe,
  parsebacks, parseline, parse, end_words, nulterminate, parsecmd,
}

module _ (line : ℕ → ℕ) (es : ℕ) where
  abbrev pub Blank : ℕ → Type 0
  Blank i = strchr whitespace (line i) ≡ true

  -- A byte of a word.
  pub record Plain (i : ℕ) : Type 0 where
    pub nonzero : line i ≢ 0
    pub no_blank : strchr whitespace (line i) ≡ false
    pub no_symbol : strchr symbols (line i) ≡ false

  -- A word at its places.
  pub record IsWord (w : Word) : Type 0 where
    pub some_bytes : w.start < w.end
    pub within : w.end ≤ es
    pub plain : (i : ℕ) → w.start ≤ i → i < w.end → Plain i
    pub ends : (w.end ≡ es) ⊎ Blank w.end

  -- From `s` on the line is these words, with blanks before, between and after them.
  unfoldable pub Spells : List Word → ℕ → Type 0
  Spells [] s = (s ≤ es) × ((i : ℕ) → s ≤ i → i < es → Blank i)
  Spells (w ∷ ws) s =
      (s ≤ w.start) × ((i : ℕ) → s ≤ i → i < w.start → Blank i) × IsWord w × Spells ws w.end

  skip_blanks-to :
      (rounds s q : ℕ)
      → s ≤ q
      → q ≤ es
      → q - s ≤ rounds
      → ((i : ℕ) → s ≤ i → i < q → Blank i)
      → AtToken line es q
      → skip_blanks line es rounds s ≡ q
  unfolding skip_blanks
  skip_blanks-to zero s q le hi enough h at = omega arith
  skip_blanks-to (suc rounds) s q le hi enough h at = elim (Bool-cases (s == q)) [
    | inl here ↦
        let e : s ≡ q = ==_sound s q here in rw e (skip_blanks-AtToken line es (suc rounds) q at)
    | inr before ↦
        let inside : ltb s es ≡ true = ground arith in
        rw (inside, h s (omega arith) (ground arith))
          (skip_blanks-to rounds (s + 1) q (ground arith) hi (omega arith)
            (λ i l k. h i (omega arith) k) at)
  ]

  skip_word-to :
      (rounds s q : ℕ)
      → s ≤ q
      → q ≤ es
      → q - s ≤ rounds
      → ((i : ℕ) → s ≤ i → i < q → Plain i)
      → (q ≡ es) ⊎ Blank q
      → skip_word line es rounds s ≡ q
  unfolding skip_word
  skip_word-to zero s q le hi enough h at = omega arith
  skip_word-to (suc rounds) s q le hi enough h at = elim (Bool-cases (s == q)) [
    | inl here ↦ elim at [
      | inl e ↦ let over : ltb s es ≡ false = ground arith in rw over (==_sound s q here)
      | inr blank ↦
          let b : strchr whitespace (line s) ≡ true = rw (==_sound s q here) blank in
          let all : (ltb s es && not (strchr whitespace (line s)) && not (strchr symbols (line s)))
              ≡ false =
            ground arith in
          rw all (==_sound s q here)
    ]
    | inr before ↦
        let inside : ltb s es ≡ true = ground arith in
        let p : Plain s = h s (omega arith) (ground arith) in
        rw (inside, p.no_blank, p.no_symbol)
          (skip_word-to rounds (s + 1) q (ground arith) hi (omega arith)
            (λ i l k. h i (omega arith) k) at)
  ]

  -- Where the next token stands.
  pub next_place : List Word → ℕ
  next_place [] = es
  next_place (w ∷ ws) = w.start

  pub blanks-Spells : (ws : List Word) (s : ℕ) → Spells ws s → blanks line es s ≡ next_place ws
  unfolding Spells next_place
  blanks-Spells [] s (le, h) =
      skip_blanks-to (es - s) s es le (omega arith) (omega arith) h (inl refl)
  blanks-Spells (w ∷ ws) s (le, h, v, rest) =
      skip_blanks-to (es - s) s w.start le (omega (arith, v.some_bytes, v.within))
        (omega (arith, v.some_bytes, v.within)) h
        (inr (v.plain w.start (omega arith) v.some_bytes).no_blank)

  pub Spells-next : (ws : List Word) (s : ℕ) → Spells ws s → Spells ws (next_place ws)
  unfolding Spells next_place
  Spells-next [] s (le, h) = (omega arith, λ i l k. absurd (omega arith))
  Spells-next (w ∷ ws) s (le, h, v, rest) = (omega arith, λ i l k. absurd (omega arith), v, rest)

  not_single : (c : ℕ) → strchr symbols c ≡ false → (strchr single c ≡ false) × ((c == 62) ≡ false)
  unfolding strchr
  not_single c h = (ground arith, ground arith)

  switch-word : (w : Word) → IsWord w → switch line es w.start ≡ (97, w.end)
  unfolding switch
  switch-word w v =
      let p : Plain w.start = v.plain w.start (omega arith) v.some_bytes in
      let nz : (line w.start == 0) ≡ false = ==_ne (line w.start) 0 p.nonzero in
      let (other, plain) = not_single (line w.start) p.no_symbol in
      let end : skip_word line es (es - w.start) w.start ≡ w.end =
        skip_word-to (es - w.start) w.start w.end (omega (arith, v.some_bytes)) v.within
          (omega (arith, v.some_bytes, v.within)) v.plain v.ends in
      rw (nz, other, plain, end) refl

  pub gettoken-word :
      (w : Word) (ws : List Word) (s : ℕ)
      → Spells (w ∷ ws) s
      → gettoken line es s ≡ record { kind = 97; word = w; next = next_place ws }
  unfolding gettoken Spells next_place
  gettoken-word w ws s h =
      let (le, b, v, rest) = h in
      rw (blanks-Spells (w ∷ ws) s h, switch-word w v, blanks-Spells ws w.end rest) refl
