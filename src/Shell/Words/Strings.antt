-- ===== src/Shell/Words/Strings.antt =====
-- Simple commands: the arguments that the parser hands over are strings.
use operating_systems_cs.Base.{
  ℕ, zero, suc, ◌-◌, ◌*◌, ◌≤◌, ◌<◌, ◌≡◌, ◌≢◌, refl, sym, ◌∙◌, inl, inr, some, List, [], ◌∷◌, arith,
  ◌==◌, ==_refl, ==_ne, Bool-cases, not_both, update,
}
use operating_systems_cs.Base.Lists.{length, get_elem?}
use operating_systems_cs.Shell.Tokens.{skip_blanks-AtToken}
use operating_systems_cs.Shell.Words.{IsWord, Spells}
use operating_systems_cs.Shell.Words.Command.{parse-words, parse-many, length-Spells}
use operating_systems_cs.Shell.{
  Word, exec, parsed, panics, after, maxargs, blanks, end_words, nulterminate, parsecmd,
}

-- What `end_words` leaves at `i`.
end_words-zero : (ws : List Word) (line : ℕ → ℕ) (i : ℕ) → line i ≡ 0 → end_words ws line i ≡ 0
unfolding end_words
end_words-zero [] line i e = e
end_words-zero (w ∷ ws) line i e =
    end_words-zero ws (update line w.end 0) i
      (elim (Bool-cases (i == w.end)) [ inl here ↦ rw here refl | inr away ↦ rw away e ])

end_words-end :
    (ws : List Word) (line : ℕ → ℕ) (k : ℕ) (w : Word)
    → get_elem? ws k ≡ some w
    → end_words ws line w.end ≡ 0
unfolding end_words
end_words-end [] line k w e = cc
end_words-end (v ∷ ws) line zero w e =
    let same : v ≡ w = cc in
    end_words-zero ws (update line v.end 0) w.end (rw same (rw (==_refl w.end) refl))
end_words-end (v ∷ ws) line (suc k) w e = end_words-end ws (update line v.end 0) k w e

-- The words but for the bytes behind them.
end_words-other :
    (ws : List Word) (line : ℕ → ℕ) (i : ℕ)
    → ((k : ℕ) (w : Word) → get_elem? ws k ≡ some w → i ≢ w.end)
    → end_words ws line i ≡ line i
unfolding end_words
end_words-other [] line i h = refl
end_words-other (w ∷ ws) line i h =
    end_words-other ws (update line w.end 0) i (λ k v e. h (suc k) v e)
    ∙ rw (==_ne i w.end (h zero w refl)) refl

module _ (line : ℕ → ℕ) (es : ℕ) where
  IsWord-Spells :
      (ws : List Word) (s k : ℕ) (w : Word)
      → Spells line es ws s
      → get_elem? ws k ≡ some w
      → IsWord line es w
  unfolding Spells
  IsWord-Spells [] s k w h e = cc
  IsWord-Spells (v ∷ ws) s zero w (le, b, word, rest) e = let same : v ≡ w = cc in rw (← same) word
  IsWord-Spells (v ∷ ws) s (suc k) w (le, b, word, rest) e = IsWord-Spells ws v.end k w rest e

  -- A byte of a word is behind no word.
  inside_word :
      (w v : Word) (i : ℕ)
      → IsWord line es w
      → IsWord line es v
      → w.start ≤ i
      → i < w.end
      → i ≢ v.end
  inside_word w v i p q lo hi e = elim q.ends [
    | inl last ↦ omega (arith, p.within)
    | inr blank ↦ not_both (rw e blank) (p.plain i lo hi).no_blank
  ]

  -- The string of the word: its bytes, none of them zero, and a zero byte.
  pub record IsString (line' : ℕ → ℕ) (w : Word) : Type 0 where
    pub bytes : (i : ℕ) → w.start ≤ i → i < w.end → line' i ≡ line i
    pub nonzero : (i : ℕ) → w.start ≤ i → i < w.end → line' i ≢ 0
    pub ended : line' w.end ≡ 0

  end_words-IsString :
      (ws : List Word) (s k : ℕ) (w : Word)
      → Spells line es ws s
      → get_elem? ws k ≡ some w
      → IsString (end_words ws line) w
  end_words-IsString ws s k w h e =
      let p : IsWord line es w = IsWord-Spells ws s k w h e in
      let same = λ (i : ℕ) (lo : w.start ≤ i) (hi : i < w.end).
        end_words-other ws line i
          (λ j v f. inside_word w v i p (IsWord-Spells ws s j v h f) lo hi) in
      record {
        bytes = same;
        nonzero = λ i lo hi z. (p.plain i lo hi).nonzero (sym (same i lo hi) ∙ z);
        ended = end_words-end ws line k w e;
      }

  module _ (end : line es ≡ 0) where
    -- On a line that a zero byte ends and that is fewer than MAXARGS words of bytes that are
    -- neither blanks nor symbols nor zero, with any blanks before, between and after them, parsecmd
    -- returns one EXEC command with these words in order, and in the line that nulterminate leaves
    -- each of them is a string: its bytes, none zero, and then a zero byte.
    pub parsecmd-words :
        (ws : List Word) (s : ℕ)
        → s ≤ es
        → Spells line es ws s
        → length ws < maxargs
        → (line' : ℕ → ℕ) × (parsecmd line s es ≡ parsed (exec ws, line') es)
          × ((k : ℕ) (w : Word) → get_elem? ws k ≡ some w → IsString line' w)
    unfolding parsecmd after nulterminate
    parsecmd-words ws s le h few =
        let short : length ws ≤ es - s = length-Spells line es end ws s h in
        let here : blanks line es es ≡ es = skip_blanks-AtToken line es (es - es) es (inl refl) in
        (
          end_words ws line,
          rw (parse-words line es end (4 * (es - s)) s ws (omega arith) few h)
              (rw here (rw (==_refl es) refl)),
          λ k w e. end_words-IsString ws s k w h e,
        )

    -- A line of MAXARGS words or more is refused.
    pub parsecmd-many :
        (ws : List Word) (s : ℕ)
        → s ≤ es
        → Spells line es ws s
        → maxargs ≤ length ws
        → parsecmd line s es ≡ panics
    unfolding parsecmd after
    parsecmd-many ws s le h many =
        let short : length ws ≤ es - s = length-Spells line es end ws s h in
        rw (parse-many line es end (4 * (es - s)) s ws (omega arith) many h) refl
