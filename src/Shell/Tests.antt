-- ===== src/Shell/Tests.antt =====
-- Lines of the shell, and the witnesses of the properties.
use operating_systems_cs.Base.{
  ℕ, ◌≤◌, ◌+◌, ◌<◌, ◌≡◌, ◌≢◌, refl, ◌⊎◌, inl, inr, Option, none, some, List, [], ◌∷◌, arith, ltb,
  ◌==◌, if◌then◌else◌,
}
use operating_systems_cs.Base.Lists.{get_elem?}
use operating_systems_cs.Shell.Returns.{parsecmd-returns}
use operating_systems_cs.Shell.Words.{Blank, Plain, IsWord, Spells}
use operating_systems_cs.Shell.Words.Strings.{IsString, parsecmd-words}
use operating_systems_cs.Shell.{
  Word, Cmd, exec, redir, pipe, back, Parsed, parsed, panics, after, strchr, skip_blanks, skip_word,
  switch, gettoken, peek, parseredirs, parseargs, redirect, parseblock, parseexec, parsepipe,
  parsebacks, parseline, parse, nulterminate, parsecmd,
}

abbrev bytes : List ℕ → ℕ → ℕ
bytes text i = elim (get_elem? text i) [ none ↦ 0 | some c ↦ c ]

abbrev word : (start end : ℕ) → Word
word a b = record { start = a; end = b }

abbrev command : Parsed (Cmd × (ℕ → ℕ)) → Option Cmd
command (parsed (c, line) s) = some c
command other = none

-- `a|(b>c)&`
abbrev piped : ℕ → ℕ
piped = bytes (97 ∷ 124 ∷ 40 ∷ 98 ∷ 62 ∷ 99 ∷ 41 ∷ 38 ∷ [])

parses :
    command (parsecmd piped 0 8)
    ≡ some (
        back (
          pipe
            (exec (word 0 1 ∷ []))
            (redir (exec (word 3 4 ∷ [])) (record { file = word 5 6; mode = 513; fd = 1 }))))
unfolding parsecmd after parse parseline parsepipe parseexec parseblock parsebacks redirect
    parseargs parseredirs peek gettoken switch skip_word skip_blanks strchr
parses = refl

-- `a b` with two-byte words: `aa aa`
abbrev two_words : ℕ → ℕ
two_words i = if ltb i 5 then (if i == 2 then 32 else 97) else 0

abbrev words : List Word
words = word 0 2 ∷ word 3 5 ∷ []

two_words-Plain : (i : ℕ) → i < 5 → i ≢ 2 → Plain two_words 5 i
unfolding strchr
two_words-Plain i lt ne =
    let byte : two_words i ≡ 97 = ground arith in
    record {
      nonzero = λ e. absurd (omega (arith, e, byte));
      no_blank = rw byte refl;
      no_symbol = rw byte refl;
    }

-- Two bytes that are not the blank are a word.
word_at :
    (a : ℕ)
    → a + 2 ≤ 5
    → ((i : ℕ) → i ≡ 2 → (i < a) ⊎ (a + 2 ≤ i))
    → (a + 2 ≡ 5) ⊎ Blank two_words 5 (a + 2)
    → IsWord two_words 5 (word a (a + 2))
word_at a le out ends = record {
  some_bytes = omega arith;
  within = le;
  plain = λ i l k.
      two_words-Plain i (omega arith)
        (λ e. elim (out i e) [ inl h ↦ absurd (omega arith) | inr h ↦ absurd (omega arith) ]);
  ends = ends;
}

two_words-Spells : Spells two_words 5 words 0
unfolding Spells strchr
two_words-Spells = (
  omega arith,
  λ i l k. absurd (omega arith),
  word_at 0 (omega arith) (λ i e. inr (omega arith)) (inr refl),
  (
    omega arith,
    λ i l k. (let here : i ≡ 2 = omega arith in rw here refl),
    word_at 3 (omega arith) (λ i e. inl (omega arith)) (inl refl),
    (omega arith, λ i l k. absurd (omega arith)),
  ),
)

parsecmd-returns_example :
    (parsecmd piped 0 8 ≡ panics)
    ⊎ ((c : Cmd) × (parsecmd piped 0 8 ≡ parsed (c, nulterminate c piped) 8))
parsecmd-returns_example = parsecmd-returns piped 8 refl 0 (omega arith)

parsecmd-words_example :
    (line : ℕ → ℕ) × (parsecmd two_words 0 5 ≡ parsed (exec words, line) 5)
    × ((k : ℕ) (w : Word) → get_elem? words k ≡ some w → IsString two_words 5 line w)
parsecmd-words_example =
    parsecmd-words two_words 5 refl words 0 (omega arith) two_words-Spells (omega arith)
