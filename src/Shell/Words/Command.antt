-- ===== src/Shell/Words/Command.antt =====
-- Simple commands: lines of words and blanks, through the whole parser.
use operating_systems_cs.Base.{
  ℕ, zero, suc, ◌+◌, ◌-◌, ◌≤◌, ◌<◌, ◌≡◌, refl, false, List, [], ◌∷◌, arith,
}
use operating_systems_cs.Base.Lists.{length}
use operating_systems_cs.Shell.Words.{Spells, next_place, Spells-next}
use operating_systems_cs.Shell.{
  Word, Cmd, exec, Parsed, parsed, panics, after, strchr, maxargs, Rule, line_rule, pipe_rule,
  exec_rule, peek, redirect, parseexec, parsepipe, parsebacks, parseline, parse,
}
use operating_systems_cs.Shell.Words.Simple.{
  Among, open-Among, peek-Spells, parseredirs-Spells, parseargs-Spells, parseargs-many,
}

module _ (line : ℕ → ℕ) (es : ℕ) (end : line es ≡ 0) where
  bar-Among : Among line es end (124 ∷ [])
  unfolding strchr
  bar-Among c h = ground arith

  amp-Among : Among line es end (38 ∷ [])
  unfolding strchr
  amp-Among c h = ground arith

  semi-Among : Among line es end (59 ∷ [])
  unfolding strchr
  semi-Among c h = ground arith

  no_words : Spells line es [] es
  unfolding Spells
  no_words = (omega arith, λ i l k. absurd (omega arith))

  -- At the end of the line no symbol follows.
  peek-end : (toks : List ℕ) → Among line es end toks → peek line es toks es ≡ (false, es)
  unfolding next_place
  peek-end toks among = peek-Spells line es end toks [] es among no_words

  parsebacks-end : (fuel : ℕ) (c : Cmd) → 0 < fuel → parsebacks line es fuel c es ≡ parsed c es
  unfolding parsebacks
  parsebacks-end zero c pos = absurd (omega arith)
  parsebacks-end (suc fuel) c pos = rw (peek-end (38 ∷ []) amp-Among) refl

  module _ (call : Rule → ℕ → Parsed Cmd) (fuel s : ℕ) where
    parseexec-words :
        (ws : List Word)
        → length ws < fuel
        → length ws < maxargs
        → Spells line es ws s
        → parseexec line es call fuel s ≡ parsed (exec ws) es
    unfolding parseexec after redirect
    parseexec-words ws lt few h =
        let next : ℕ = next_place line es ws in
        let there : Spells line es ws next = Spells-next line es ws s h in
        let again : Spells line es ws (next_place line es ws) = there in
        rw (peek-Spells line es end (40 ∷ []) ws s (open-Among line es end) h) (
          rw (parseredirs-Spells line es end fuel next ws (omega arith) there)
            (rw (parseargs-Spells line es end fuel 0 next ws lt (omega arith) there) refl))

    parseexec-many :
        (ws : List Word)
        → length ws < fuel
        → maxargs ≤ length ws
        → Spells line es ws s
        → parseexec line es call fuel s ≡ panics
    unfolding parseexec after
    parseexec-many ws lt many h =
        let next : ℕ = next_place line es ws in
        let there : Spells line es ws next = Spells-next line es ws s h in
        rw (peek-Spells line es end (40 ∷ []) ws s (open-Among line es end) h) (
          rw (parseredirs-Spells line es end fuel next ws (omega arith) there) (
            rw (parseargs-many line es end fuel 0 next ws lt (omega arith) (omega arith) there)
              refl))

    parsepipe-alone :
        (c : Cmd) → call exec_rule s ≡ parsed c es → parsepipe line es call fuel s ≡ parsed c es
    unfolding parsepipe after
    parsepipe-alone c e = rw e (rw (peek-end (124 ∷ []) bar-Among) refl)

    parsepipe-panics : call exec_rule s ≡ panics → parsepipe line es call fuel s ≡ panics
    unfolding parsepipe after
    parsepipe-panics e = rw e refl

    parseline-alone :
        (c : Cmd)
        → 0 < fuel
        → call pipe_rule s ≡ parsed c es
        → parseline line es call fuel s ≡ parsed c es
    unfolding parseline after
    parseline-alone c pos e =
        rw e (rw (parsebacks-end fuel c pos) (rw (peek-end (59 ∷ []) semi-Among) refl))

    parseline-panics : call pipe_rule s ≡ panics → parseline line es call fuel s ≡ panics
    unfolding parseline after
    parseline-panics e = rw e refl

  -- Fuel for the four functions.
  pub parse-words :
      (fuel s : ℕ) (ws : List Word)
      → length ws ≤ fuel
      → length ws < maxargs
      → Spells line es ws s
      → parse line es (fuel + 4) line_rule s ≡ parsed (exec ws) es
  unfolding parse
  parse-words fuel s ws lt few h =
      let four : fuel + 4 ≡ suc (suc (suc (suc fuel))) = omega arith in
      rw four (
        parseline-alone (parse line es (suc (suc (suc fuel)))) (suc (suc (suc fuel))) s (exec ws)
          (omega arith)
          (parsepipe-alone (parse line es (suc (suc fuel))) (suc (suc fuel)) s (exec ws)
            (parseexec-words (parse line es (suc fuel)) (suc fuel) s ws (omega arith) few h)))

  pub parse-many :
      (fuel s : ℕ) (ws : List Word)
      → length ws ≤ fuel
      → maxargs ≤ length ws
      → Spells line es ws s
      → parse line es (fuel + 4) line_rule s ≡ panics
  unfolding parse
  parse-many fuel s ws lt many h =
      let four : fuel + 4 ≡ suc (suc (suc (suc fuel))) = omega arith in
      rw four (
        parseline-panics (parse line es (suc (suc (suc fuel)))) (suc (suc (suc fuel))) s (
          parsepipe-panics (parse line es (suc (suc fuel))) (suc (suc fuel)) s
            (parseexec-many (parse line es (suc fuel)) (suc fuel) s ws (omega arith) many h)))

  -- Each word has a byte of the line.
  pub length-Spells : (ws : List Word) (s : ℕ) → Spells line es ws s → length ws ≤ es - s
  unfolding Spells
  length-Spells [] s h = omega arith
  length-Spells (w ∷ ws) s (le, b, v, rest) =
      omega (arith, length-Spells ws w.end rest, v.some_bytes, v.within)
