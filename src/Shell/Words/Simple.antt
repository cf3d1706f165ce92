-- ===== src/Shell/Words/Simple.antt =====
-- What the loops of the parser do on words and blanks.
use operating_systems_cs.Base.{
  ℕ, zero, suc, ◌+◌, ◌-◌, ◌≤◌, ◌<◌, ◌≡◌, refl, inl, inr, false, List, [], ◌∷◌, arith, leb, ==_ne,
  Bool-cases,
}
use operating_systems_cs.Base.Lists.{length}
use operating_systems_cs.Shell.Tokens.{skip_blanks-AtToken}
use operating_systems_cs.Shell.Words.{
  Plain, Spells, next_place, blanks-Spells, Spells-next, gettoken-word,
}
use operating_systems_cs.Shell.{
  Word, parsed, panics, after, symbols, strchr, maxargs, blanks, switch, gettoken, peek,
  parseredirs, parseargs,
}

module _ (line : ℕ → ℕ) (es : ℕ) (end : line es ≡ 0) where
  -- These symbols are all among `symbols`.
  abbrev pub Among : List ℕ → Type 0
  Among toks = (c : ℕ) → strchr symbols c ≡ false → strchr toks c ≡ false

  redirs-Among : Among (60 ∷ 62 ∷ [])
  unfolding strchr
  redirs-Among c h = ground arith

  stops-Among : Among (124 ∷ 41 ∷ 38 ∷ 59 ∷ [])
  unfolding strchr
  stops-Among c h = ground arith

  pub open-Among : Among (40 ∷ [])
  unfolding strchr
  open-Among c h = ground arith

  -- `peek` finds no symbol.
  pub peek-Spells :
      (toks : List ℕ) (ws : List Word) (s : ℕ)
      → Among toks
      → Spells line es ws s
      → peek line es toks s ≡ (false, next_place line es ws)
  unfolding peek next_place Spells
  peek-Spells toks [] s among h = rw (blanks-Spells line es [] s h, end) refl
  peek-Spells toks (w ∷ ws) s among h =
      let (le, b, v, rest) = h in
      let p : Plain line es w.start = v.plain w.start (omega arith) v.some_bytes in
      let other : strchr toks (line w.start) ≡ false = among (line w.start) p.no_symbol in
      rw (blanks-Spells line es (w ∷ ws) s h, other, ==_ne (line w.start) 0 p.nonzero) refl

  pub parseredirs-Spells :
      (fuel s : ℕ) (ws : List Word)
      → 0 < fuel
      → Spells line es ws s
      → parseredirs line es fuel s ≡ parsed [] (next_place line es ws)
  unfolding parseredirs
  parseredirs-Spells zero s ws pos h = absurd (omega arith)
  parseredirs-Spells (suc fuel) s ws pos h =
      rw (peek-Spells (60 ∷ 62 ∷ []) ws s redirs-Among h) refl

  gettoken-end :
      gettoken line es es ≡ record { kind = 0; word = record { start = es; end = es }; next = es }
  unfolding gettoken switch
  gettoken-end =
      let here : blanks line es es ≡ es = skip_blanks-AtToken line es (es - es) es (inl refl) in
      rw here (rw end (rw here refl))

  pub parseargs-Spells :
      (fuel argc s : ℕ) (ws : List Word)
      → length ws < fuel
      → argc + length ws < maxargs
      → Spells line es ws s
      → parseargs line es fuel argc s ≡ parsed (ws, []) es
  unfolding parseargs Spells next_place after
  parseargs-Spells zero argc s ws lt few h = absurd (omega arith)
  parseargs-Spells (suc fuel) argc s [] lt few h =
      rw (peek-Spells (124 ∷ 41 ∷ 38 ∷ 59 ∷ []) [] s stops-Among h) (rw gettoken-end refl)
  parseargs-Spells (suc fuel) argc s (w ∷ ws) lt few h =
      let toks : List ℕ = 124 ∷ 41 ∷ 38 ∷ 59 ∷ [] in
      let room : leb maxargs (argc + 1) ≡ false = ground arith in
      let (le, b, v, rest) = h in
      let start : Spells line es (w ∷ ws) w.start = Spells-next line es (w ∷ ws) s h in
      let there : Spells line es ws (next_place line es ws) = Spells-next line es ws w.end rest in
      rw (peek-Spells toks (w ∷ ws) s stops-Among h, gettoken-word line es w ws w.start start)
        (rw room (
          rw (parseredirs-Spells fuel (next_place line es ws) ws (omega arith) there) (
            rw
              (parseargs-Spells fuel (argc + 1) (next_place line es ws) ws (omega arith)
                (omega arith) there)
              refl)))

  pub parseargs-many :
      (fuel argc s : ℕ) (ws : List Word)
      → length ws < fuel
      → argc < maxargs
      → maxargs ≤ argc + length ws
      → Spells line es ws s
      → parseargs line es fuel argc s ≡ panics
  unfolding parseargs Spells next_place after
  parseargs-many zero argc s ws lt few many h = absurd (omega arith)
  parseargs-many (suc fuel) argc s [] lt few many h = absurd (omega arith)
  parseargs-many (suc fuel) argc s (w ∷ ws) lt few many h =
      let toks : List ℕ = 124 ∷ 41 ∷ 38 ∷ 59 ∷ [] in
      let (le, b, v, rest) = h in
      let start : Spells line es (w ∷ ws) w.start = Spells-next line es (w ∷ ws) s h in
      let next : ℕ = next_place line es ws in
      let there : Spells line es ws next = Spells-next line es ws w.end rest in
      rw (peek-Spells toks (w ∷ ws) s stops-Among h, gettoken-word line es w ws w.start start)
        (elim (Bool-cases (leb maxargs (argc + 1))) [
          | inl full ↦ rw full refl
          | inr room ↦ rw room (
              rw (parseredirs-Spells fuel next ws (omega arith) there) (
                rw
                  (parseargs-many fuel (argc + 1) next ws (omega arith) (ground arith) (omega arith)
                    there)
                  refl))
        ])
