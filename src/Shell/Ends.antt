-- ===== src/Shell/Ends.antt =====
-- The loops of the parser end, with their place in the line.
use operating_systems_cs.Base.{
  ℕ, zero, suc, ◌+◌, ◌-◌, ◌≤◌, ◌<◌, ◌≡◌, ◌≢◌, inl, inr, List, [], ◌∷◌, arith, leb, ◌==◌, Bool-cases,
}
use operating_systems_cs.Shell.Tokens.{gettoken_lem, peek_lem}
use operating_systems_cs.Shell.{
  Cmd, back, Parsed, parsed, panics, out_of_fuel, after, maxargs, Token, gettoken, peek,
  parseredirs, parseargs, parsebacks,
}

module _ (line : ℕ → ℕ) (es : ℕ) where
  -- The call panics, or it ends with a place between `lo` and the end of the line.
  abbrev pub Ends {ℓ} : {A : Type ℓ} → ℕ → Parsed A → Type 0
  Ends lo (parsed a s) = (lo ≤ s) × (s ≤ es)
  Ends lo panics = Unit
  Ends lo out_of_fuel = ⊥

  pub Ends-after :
      {A B : Type 0} (lo hi : ℕ) (r : Parsed A) (k : A → ℕ → Parsed B)
      → Ends lo r
      → ((a : A) (s : ℕ) → lo ≤ s → s ≤ es → Ends hi (k a s))
      → Ends hi (after r k)
  unfolding after
  Ends-after lo hi (parsed a s) k (p, q) h = h a s p q
  Ends-after lo hi panics k e h = tt
  Ends-after lo hi out_of_fuel k e h = e

  pub Ends-from : {A : Type 0} (lo lo' : ℕ) (r : Parsed A) → lo' ≤ lo → Ends lo r → Ends lo' r
  Ends-from lo lo' (parsed a s) le (p, q) = (omega arith, q)
  Ends-from lo lo' panics le e = tt
  Ends-from lo lo' out_of_fuel le e = e

  module _ (end : line es ≡ 0) where
    pub parseredirs-Ends :
        (fuel s : ℕ) → s ≤ es → es - s < fuel → Ends s (parseredirs line es fuel s)
    unfolding parseredirs
    parseredirs-Ends zero s le lt = absurd (omega arith)
    parseredirs-Ends (suc fuel) s le lt =
        let s1 : ℕ = (peek line es (60 ∷ 62 ∷ []) s).1 in
        let (lo, hi, on) = peek_lem line es end (60 ∷ 62 ∷ []) s le in
        elim (Bool-cases (peek line es (60 ∷ 62 ∷ []) s).0) [
          | inr no_more ↦ rw no_more (lo, hi)
          | inl more ↦
              let tok : Token = gettoken line es s1 in
              let (a, b, c, d, e) = gettoken_lem line es end s1 hi in
              let file : Token = gettoken line es tok.next in
              let (a', b', c', d', e') = gettoken_lem line es end tok.next d in
              let past : s < file.next = omega (arith, on more) in
              elim (Bool-cases (file.kind == 97)) [
                | inr missing ↦ rw (more, missing) tt
                | inl word ↦
                    rw (more, word)
                      (Ends-after file.next s (parseredirs line es fuel file.next) _
                        (parseredirs-Ends fuel file.next d' (omega arith))
                        (λ rs s2 l h. (omega arith, h)))
              ]
        ]

    -- A token that was read is behind the place.
    token_on : (s : ℕ) → s ≤ es → (gettoken line es s).kind ≢ 0 → s < (gettoken line es s).next
    token_on s le nk = let (a, b, c, d, e) = gettoken_lem line es end s le in omega (arith, e nk)

    pub token_in :
        (s : ℕ) → s ≤ es → (s ≤ (gettoken line es s).next) × ((gettoken line es s).next ≤ es)
    token_in s le = let (a, b, c, d, e) = gettoken_lem line es end s le in (omega arith, d)

    pub parseargs-Ends :
        (fuel argc s : ℕ) → s ≤ es → es - s < fuel → Ends s (parseargs line es fuel argc s)
    unfolding parseargs
    parseargs-Ends zero argc s le lt = absurd (omega arith)
    parseargs-Ends (suc fuel) argc s le lt =
        let toks : List ℕ = 124 ∷ 41 ∷ 38 ∷ 59 ∷ [] in
        let s1 : ℕ = (peek line es toks s).1 in
        let tok : Token = gettoken line es s1 in
        let (lo, hi, on) = peek_lem line es end toks s le in
        let (past, inside) = token_in s1 hi in
        elim (Bool-cases (peek line es toks s).0) [
          | inl stop ↦ rw stop (lo, hi)
          | inr go ↦ elim (Bool-cases (tok.kind == 0)) [
            | inl at_end ↦ rw (go, at_end) (omega arith, inside)
            | inr token ↦ elim (Bool-cases (tok.kind == 97)) [
              | inr symbol ↦ rw (go, token, symbol) tt
              | inl word ↦ elim (Bool-cases (leb maxargs (argc + 1))) [
                | inl many ↦ rw (go, token, word, many) tt
                | inr few ↦
                    let further : s1 < tok.next = token_on s1 hi (ground arith) in
                    rw (go, token, word, few)
                      (Ends-after tok.next s (parseredirs line es fuel tok.next) _
                        (parseredirs-Ends fuel tok.next inside (omega arith))
                        (λ rs s2 l h.
                          Ends-after s2 s (parseargs line es fuel (argc + 1) s2) _
                            (parseargs-Ends fuel (argc + 1) s2 h (omega arith))
                            (λ a s3 l2 h2. (omega arith, h2))))
              ]
            ]
          ]
        ]

    pub parsebacks-Ends :
        (fuel s : ℕ) (c : Cmd) → s ≤ es → es - s < fuel → Ends s (parsebacks line es fuel c s)
    unfolding parsebacks
    parsebacks-Ends zero s c le lt = absurd (omega arith)
    parsebacks-Ends (suc fuel) s c le lt =
        let (lo, hi, on) = peek_lem line es end (38 ∷ []) s le in
        let s1 : ℕ = (peek line es (38 ∷ []) s).1 in
        let (past, inside) = token_in s1 hi in
        elim (Bool-cases (peek line es (38 ∷ []) s).0) [
          | inr no_more ↦ rw no_more (lo, hi)
          | inl amp ↦
              let next : ℕ = (gettoken line es s1).next in
              let further : s1 < next = on amp in
              rw amp (
                Ends-from next s (parsebacks line es fuel (back c) next) (omega arith)
                  (parsebacks-Ends fuel next (back c) inside (omega arith)))
        ]
