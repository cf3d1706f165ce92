-- ===== src/Shell/Tokens.antt =====
-- Where the functions that read tokens leave the place in the line.
use operating_systems_cs.Base.{
  ℕ, zero, suc, ◌+◌, ◌-◌, ◌≤◌, ◌<◌, ◌≡◌, ◌≢◌, refl, ◌⊎◌, inl, inr, true, false, List, arith, ltb,
  lt→ltb, ◌==◌, ==_sound, ==_ne, Bool-cases,
}
use operating_systems_cs.Shell.{
  whitespace, symbols, single, strchr, skip_blanks, blanks, skip_word, switch, gettoken, peek,
}

module _ (line : ℕ → ℕ) (es : ℕ) where
  -- No blank stands at `q`.
  abbrev pub AtToken : ℕ → Type 0
  AtToken q = (q ≡ es) ⊎ (strchr whitespace (line q) ≡ false)

  skip_blanks_lem :
      (rounds s : ℕ)
      → s ≤ es
      → es - s ≤ rounds
      → let q = skip_blanks line es rounds s in (s ≤ q) × (q ≤ es) × AtToken q
  unfolding skip_blanks
  skip_blanks_lem zero s le enough = (omega arith, omega arith, inl (omega arith))
  skip_blanks_lem (suc rounds) s le enough = elim (Bool-cases (ltb s es)) [
    | inr over ↦ rw over (omega arith, le, inl (ground arith))
    | inl inside ↦ elim (Bool-cases (strchr whitespace (line s))) [
      | inr token ↦ rw (inside, token) (omega arith, le, inr token)
      | inl blank ↦
          let (lo, hi, there) = skip_blanks_lem rounds (s + 1) (ground arith) (omega arith) in
          rw (inside, blank) (omega arith, hi, there)
    ]
  ]

  pub blanks_lem : (s : ℕ) → s ≤ es → let q = blanks line es s in (s ≤ q) × (q ≤ es) × AtToken q
  blanks_lem s le = skip_blanks_lem (es - s) s le (omega arith)

  pub skip_blanks-AtToken : (rounds q : ℕ) → AtToken q → skip_blanks line es rounds q ≡ q
  unfolding skip_blanks
  skip_blanks-AtToken zero q h = refl
  skip_blanks-AtToken (suc rounds) q (inl e) =
      let over : ltb q es ≡ false = ground arith in rw over refl
  skip_blanks-AtToken (suc rounds) q (inr token) = elim (Bool-cases (ltb q es)) [
    | inl inside ↦ rw (inside, token) refl
    | inr over ↦ rw over refl
  ]

  pub skip_word_lem :
      (rounds s : ℕ) → s ≤ es → let e = skip_word line es rounds s in (s ≤ e) × (e ≤ es)
  unfolding skip_word
  skip_word_lem zero s le = (omega arith, le)
  skip_word_lem (suc rounds) s le = elim (Bool-cases (ltb s es)) [
    | inr over ↦ rw over (omega arith, le)
    | inl inside ↦ let (lo, hi) = skip_word_lem rounds (s + 1) (ground arith) in ground arith
  ]

  -- A word has a byte at least.
  skip_word-lt :
      (rounds s : ℕ)
      → s < es
      → es - s ≤ rounds
      → strchr whitespace (line s) ≡ false
      → strchr symbols (line s) ≡ false
      → s < skip_word line es rounds s
  unfolding skip_word
  skip_word-lt zero s lt enough w y = absurd (omega arith)
  skip_word-lt (suc rounds) s lt enough w y =
      let inside : ltb s es ≡ true = lt→ltb s es lt in
      let (lo, hi) = skip_word_lem rounds (s + 1) (omega arith) in rw (inside, w, y) (omega arith)

  not_symbol : (c : ℕ) → strchr single c ≡ false → (c == 62) ≡ false → strchr symbols c ≡ false
  unfolding strchr
  not_symbol c h k = ground arith

  module _ (end : line es ≡ 0) where
    before_end : (q : ℕ) → q ≤ es → line q ≢ 0 → q < es
    before_end q le ne = elim (Bool-cases (q == es)) [
      | inl e ↦ absurd (ne (rw (==_sound q es e) end))
      | inr away ↦ ground arith
    ]

    -- No token is empty but the one at the end of the line.
    abbrev SwitchEnds : ℕ → ℕ × ℕ → Type 0
    SwitchEnds q (kind, e) =
        (q ≤ e)
        × (e ≤ es)
        × (line q ≢ 0 → q < e)
        × (line q ≡ 0 → kind ≡ 0)
        × (line q ≢ 0 → kind ≢ 0)

    moved : (q kind e : ℕ) → line q ≢ 0 → kind ≢ 0 → q < e → e ≤ es → SwitchEnds q (kind, e)
    moved q kind e ne nk lo hi = (omega arith, hi, λ n. lo, λ z. absurd (ne z), λ n. nk)

    switch-zero : (q : ℕ) → q ≤ es → line q ≡ 0 → SwitchEnds q (switch line es q)
    unfolding switch
    switch-zero q le z =
        let zero_byte : (line q == 0) ≡ true = ground arith in
        rw zero_byte (omega arith, le, λ n. absurd (n z), λ e. refl, λ n. absurd (n z))

    switch-other : (q : ℕ) → q ≤ es → AtToken q → line q ≢ 0 → SwitchEnds q (switch line es q)
    unfolding switch
    switch-other q le at ne =
        let nz : (line q == 0) ≡ false = ==_ne (line q) 0 ne in
        let lt : q < es = before_end q le ne in
        elim (Bool-cases (strchr single (line q))) [
          | inl alone ↦ rw (nz, alone) (moved q (line q) (q + 1) ne ne (omega arith) (omega arith))
          | inr other ↦ elim (Bool-cases (line q == 62)) [
            | inl greater ↦ elim (Bool-cases (line (q + 1) == 62)) [
              | inl twice ↦
                  let lt2 : q + 1 < es = before_end (q + 1) (omega arith) (ground arith) in
                  rw (nz, other, greater, twice)
                    (moved q 43 (q + 2) ne (λ e. absurd (omega (arith, e))) (omega arith)
                      (omega arith))
              | inr once ↦
                  rw (nz, other, greater, once)
                    (moved q 62 (q + 1) ne (λ e. absurd (omega (arith, e))) (omega arith)
                      (omega arith))
            ]
            | inr plain ↦
                let (lo, hi) = skip_word_lem (es - q) q le in
                let blank : strchr whitespace (line q) ≡ false = elim at [
                  | inl e ↦ absurd (omega arith)
                  | inr h ↦ h
                ] in
                let longer : q < skip_word line es (es - q) q =
                  skip_word-lt (es - q) q lt (omega arith) blank
                    (not_symbol (line q) other plain) in
                rw (nz, other, plain)
                  (moved q 97 (skip_word line es (es - q) q) ne (λ e. absurd (omega (arith, e)))
                    longer hi)
          ]
        ]

    pub switch_lem : (q : ℕ) → q ≤ es → AtToken q → SwitchEnds q (switch line es q)
    switch_lem q le at = elim (Bool-cases (line q == 0)) [
      | inl z ↦ switch-zero q le (==_sound (line q) 0 z)
      | inr nz ↦ switch-other q le at (ground arith)
    ]

    -- `gettoken` stays in the line, and moves on if it returns a token.
    pub gettoken_lem :
        (s : ℕ)
        → s ≤ es
        → let t = gettoken line es s in
          (s ≤ t.word.start)
          × (t.word.start ≤ t.word.end)
          × (t.word.end ≤ t.next)
          × (t.next ≤ es)
          × (t.kind ≢ 0 → t.word.start < t.word.end)
    unfolding gettoken
    gettoken_lem s le =
        let (lo, hi, at) = blanks_lem s le in
        let q : ℕ = blanks line es s in
        let (le_e, e_le, longer, none, some_kind) = switch_lem q hi at in
        let (lo2, hi2, at2) = blanks_lem (switch line es q).1 e_le in
        (lo, le_e, lo2, hi2, λ nk. longer (λ z. nk (none z)))

    -- Where `peek` finds a symbol, `gettoken` moves on from it.
    pub peek_lem :
        (toks : List ℕ) (s : ℕ)
        → s ≤ es
        → let (found, s') = peek line es toks s in
          (s ≤ s') × (s' ≤ es) × (found ≡ true → s' < (gettoken line es s').next)
    unfolding peek gettoken
    peek_lem toks s le =
        let (lo, hi, at) = blanks_lem s le in
        let q : ℕ = blanks line es s in
        (
          lo,
          hi,
          λ found.
              let ne : line q ≢ 0 = ground arith in
              let (le_e, e_le, longer, none, some_kind) = switch_lem q hi at in
              let (lo2, hi2, at2) = blanks_lem (switch line es q).1 e_le in
              rw (skip_blanks-AtToken (es - q) q at) (omega (arith, longer ne)),
        )
