-- ===== src/Shell/Returns.antt =====
-- The parser ends, whatever the line.
use operating_systems_cs.Base.{
  ℕ, zero, suc, ◌+◌, ◌-◌, ◌*◌, ◌≤◌, ◌<◌, ◌≡◌, refl, ◌⊎◌, inl, inr, [], ◌∷◌, arith, ◌==◌, ==_sound,
  ap, Bool-cases, if◌then◌else◌,
}
use operating_systems_cs.Shell.Tokens.{peek_lem}
use operating_systems_cs.Shell.{
  Cmd, Parsed, parsed, panics, out_of_fuel, after, Rule, line_rule, pipe_rule, exec_rule,
  block_rule, blanks, gettoken, peek, parseredirs, parseargs, parseblock, parseexec, parsepipe,
  parsebacks, parseline, parse, nulterminate, parsecmd,
}
use operating_systems_cs.Shell.Ends.{
  Ends, Ends-after, Ends-from, token_in, parseredirs-Ends, parseargs-Ends, parsebacks-Ends,
}

module _ (line : ℕ → ℕ) (es : ℕ) (end : line es ≡ 0) where
  -- What fuel each function needs at a place; a block begins with a byte of its own.
  abbrev needs : Rule → ℕ → ℕ
  needs line_rule s = 4 * (es - s) + 3
  needs pipe_rule s = 4 * (es - s) + 2
  needs exec_rule s = 4 * (es - s) + 1
  needs block_rule s = 4 * (es - s)

  -- The calls end where they have this fuel.
  abbrev CallsEnd : (Rule → ℕ → Parsed Cmd) → ℕ → Type 0
  CallsEnd call fuel = (r : Rule) (s : ℕ) → s ≤ es → needs r s < fuel → Ends line es s (call r s)

  module _ (call : Rule → ℕ → Parsed Cmd) (fuel s : ℕ) (le : s ≤ es)
      (calls : CallsEnd call fuel) where
    parseblock-Ends : 4 * (es - s) < suc fuel → Ends line es s (parseblock line es call fuel s)
    unfolding parseblock
    parseblock-Ends lt =
        let s1 : ℕ = (peek line es (40 ∷ []) s).1 in
        let (lo, hi, on) = peek_lem line es end (40 ∷ []) s le in
        let next : ℕ = (gettoken line es s1).next in
        let (past, inside) = token_in line es end s1 hi in
        elim (Bool-cases (peek line es (40 ∷ []) s).0) [
          | inr missing ↦ rw missing tt
          | inl opens ↦
              let further : s1 < next = on opens in
              rw opens (
                Ends-after line es next s (call line_rule next) _
                  (calls line_rule next inside (omega arith))
                  (λ c s2 l h.
                    let (lo2, hi2, on2) = peek_lem line es end (41 ∷ []) s2 h in
                    let s3 : ℕ = (peek line es (41 ∷ []) s2).1 in
                    let (past3, inside3) = token_in line es end s3 hi2 in
                    elim (Bool-cases (peek line es (41 ∷ []) s2).0) [
                      | inr missing ↦ rw missing tt
                      | inl closes ↦ rw closes (
                          Ends-after line es _ s
                            (parseredirs line es fuel (gettoken line es s3).next) _
                            (parseredirs-Ends line es end fuel (gettoken line es s3).next inside3
                              (omega arith))
                            (λ rs s4 l4 h4. (omega arith, h4)))
                    ]))
        ]

    parseexec-Ends : 4 * (es - s) + 1 < suc fuel → Ends line es s (parseexec line es call fuel s)
    unfolding parseexec
    parseexec-Ends lt =
        let s1 : ℕ = (peek line es (40 ∷ []) s).1 in
        let (lo, hi, on) = peek_lem line es end (40 ∷ []) s le in
        elim (Bool-cases (peek line es (40 ∷ []) s).0) [
          | inl opens ↦ rw opens (
              Ends-from line es s1 s (call block_rule s1) lo (calls block_rule s1 hi (omega arith)))
          | inr words ↦ rw words (
              Ends-after line es s1 s (parseredirs line es fuel s1) _
                (parseredirs-Ends line es end fuel s1 hi (omega arith))
                (λ rs s2 l h.
                  Ends-after line es s2 s (parseargs line es fuel 0 s2) _
                    (parseargs-Ends line es end fuel 0 s2 h (omega arith))
                    (λ a s3 l3 h3. (omega arith, h3))))
        ]

    parsepipe-Ends : 4 * (es - s) + 2 < suc fuel → Ends line es s (parsepipe line es call fuel s)
    unfolding parsepipe
    parsepipe-Ends lt =
        Ends-after line es s s (call exec_rule s) _ (calls exec_rule s le (omega arith))
          (λ c s1 l h.
            let (lo, hi, on) = peek_lem line es end (124 ∷ []) s1 h in
            let s2 : ℕ = (peek line es (124 ∷ []) s1).1 in
            let (past, inside) = token_in line es end s2 hi in
            elim (Bool-cases (peek line es (124 ∷ []) s1).0) [
              | inr alone ↦ rw alone (omega arith, hi)
              | inl bar ↦
                  let further : s2 < (gettoken line es s2).next = on bar in
                  rw bar (
                    Ends-after line es _ s (call pipe_rule (gettoken line es s2).next) _
                      (calls pipe_rule (gettoken line es s2).next inside (omega arith))
                      (λ r s3 l3 h3. (omega arith, h3)))
            ])

    parseline-Ends : 4 * (es - s) + 3 < suc fuel → Ends line es s (parseline line es call fuel s)
    unfolding parseline
    parseline-Ends lt =
        Ends-after line es s s (call pipe_rule s) _ (calls pipe_rule s le (omega arith))
          (λ c s1 l h.
            Ends-after line es s1 s (parsebacks line es fuel c s1) _
              (parsebacks-Ends line es end fuel s1 c h (omega arith))
              (λ c2 s2 l2 h2.
                let (lo, hi, on) = peek_lem line es end (59 ∷ []) s2 h2 in
                let s3 : ℕ = (peek line es (59 ∷ []) s2).1 in
                let (past, inside) = token_in line es end s3 hi in
                elim (Bool-cases (peek line es (59 ∷ []) s2).0) [
                  | inr alone ↦ rw alone (omega arith, hi)
                  | inl semi ↦
                      let further : s3 < (gettoken line es s3).next = on semi in
                      rw semi (
                        Ends-after line es _ s (call line_rule (gettoken line es s3).next) _
                          (calls line_rule (gettoken line es s3).next inside (omega arith))
                          (λ r s4 l4 h4. (omega arith, h4)))
                ]))

  pub parse-Ends : (fuel : ℕ) → CallsEnd (parse line es fuel) fuel
  unfolding parse
  parse-Ends zero r s le lt = absurd (omega arith)
  parse-Ends (suc fuel) line_rule s le lt =
      parseline-Ends (parse line es fuel) fuel s le (parse-Ends fuel) lt
  parse-Ends (suc fuel) pipe_rule s le lt =
      parsepipe-Ends (parse line es fuel) fuel s le (parse-Ends fuel) lt
  parse-Ends (suc fuel) exec_rule s le lt =
      parseexec-Ends (parse line es fuel) fuel s le (parse-Ends fuel) lt
  parse-Ends (suc fuel) block_rule s le lt =
      parseblock-Ends (parse line es fuel) fuel s le (parse-Ends fuel) lt

  -- The end of `parsecmd`.
  abbrev close : Cmd → ℕ → Parsed (Cmd × (ℕ → ℕ))
  close c s1 =
      let s2 = blanks line es s1 in if s2 == es then parsed (c, nulterminate c line) s2 else panics

  -- From every place in a line that a zero byte ends, whatever its bytes, the fuel of parsecmd is
  -- enough: it panics, or it returns a command, having read the line to its end.
  pub parsecmd-returns :
      (s : ℕ)
      → s ≤ es
      → (parsecmd line s es ≡ panics)
        ⊎ ((c : Cmd) × (parsecmd line s es ≡ parsed (c, nulterminate c line) es))
  unfolding parsecmd after
  parsecmd-returns s le =
      closing (parse line es (4 * (es - s) + 4) line_rule s)
        (parse-Ends (4 * (es - s) + 4) line_rule s le (omega arith))
    where
      closing :
          (r : Parsed Cmd)
          → Ends line es s r
          → (after r close ≡ panics)
            ⊎ ((c : Cmd) × (after r close ≡ parsed (c, nulterminate c line) es))
      closing (parsed c s1) (lo, hi) = elim (Bool-cases (blanks line es s1 == es)) [
        | inl all ↦
            inr (
              c,
              rw all (ap (parsed (c, nulterminate c line)) (==_sound (blanks line es s1) es all)),
            )
        | inr left_over ↦ inl (rw left_over refl)
      ]
      closing panics e = inl refl
      closing out_of_fuel e = absurd e
