-- ===== src/Fs/Scan.antt =====
-- The scan of `balloc` over the bitmap.
use operating_systems_cs.Base.{
  ℕ, zero, suc, ◌+◌, ◌-◌, ◌*◌, ◌%◌, ◌≤◌, ◌<◌, ◌≡◌, refl, sym, ◌∙◌, inl, inr, Bool, true, false,
  Option, none, some, arith, ltb, ltb→lt, ltb→le, ◌==◌, ==_sound, Bool-cases, Option-cases,
}
use operating_systems_cs.Fs.{
  Block, Disk, bread, log_write, Superblock, bzero, bpb, bblock, is_free_bit, set_bit, scan_bits,
  take_block, balloc_from,
}

scan-some :
    (rounds bi b size r : ℕ) (v : Block)
    → scan_bits rounds bi b size v ≡ some r
    → (bi ≤ r)
      × (r < bi + rounds)
      × (b + r < size)
      × (is_free_bit v r ≡ true)
      × ((k : ℕ) → bi ≤ k → k < r → is_free_bit v k ≡ false)
unfolding scan_bits
scan-some zero bi b size r v e = cc
scan-some (suc rounds) bi b size r v e = elim (Bool-cases (ltb (b + bi) size)) [
  | inr over ↦ absurd (no_result (rw over at e))
  | inl below ↦ elim (Bool-cases (is_free_bit v bi)) [
    | inl free ↦
        let same : bi ≡ r = some_inj (rw (below, free) at e) in
        (
          omega arith,
          omega arith,
          rw (← same) (ltb→lt (b + bi) size below),
          rw (← same) free,
          λ k l h. absurd (omega arith),
        )
    | inr used ↦
        let (lo, hi, lt, free, before) =
          scan-some rounds (bi + 1) b size r v (rw (below, used) at e) in
        (
          omega arith,
          omega arith,
          lt,
          free,
          λ k l h. elim (Bool-cases (k == bi)) [
            | inl here ↦ rw (==_sound k bi here) used
            | inr later ↦ before k (ground arith) h
          ],
        )
  ]
]
  where
    no_result : none ≡ some r → ⊥
    no_result h = cc

    some_inj : {a : ℕ} → some a ≡ some r → a ≡ r
    some_inj h = cc

scan-none :
    (rounds bi b size : ℕ) (v : Block)
    → scan_bits rounds bi b size v ≡ none
    → (k : ℕ) → bi ≤ k
    → k < bi + rounds
    → b + k < size
    → is_free_bit v k ≡ false
unfolding scan_bits
scan-none zero bi b size v e k lo hi lt = absurd (omega arith)
scan-none (suc rounds) bi b size v e k lo hi lt =
    let below : ltb (b + bi) size ≡ true = ground arith in
    elim (Bool-cases (is_free_bit v bi)) [
      | inl free ↦ absurd (no_result (rw (below, free) at e))
      | inr used ↦ elim (Bool-cases (k == bi)) [
        | inl here ↦ rw (==_sound k bi here) used
        | inr later ↦
            scan-none rounds (bi + 1) b size v (rw (below, used) at e) k (ground arith)
              (omega arith) lt
      ]
    ]
  where
    no_result : {a : ℕ} → some a ≡ none → ⊥
    no_result h = cc

add_sub : (a b : ℕ) → a + b - a ≡ b
add_sub a b = omega arith

pair_inj :
    {x y : ℕ} {d d' : Disk}
    → ◌≡◌ {A = Option (ℕ × Disk)} (some (x, d)) (some (y, d'))
    → (x ≡ y) × (d ≡ d')
pair_inj e = (cc, cc)

module _ (sb : Superblock) where
  -- The bit of block `x` in the bitmap on the disk.
  abbrev pub is_free : Disk → ℕ → Bool
  is_free d x = is_free_bit (d.blocks (bblock sb x)) (x % bpb)

  -- The disk after `balloc` has taken block `x`.
  abbrev pub taken : ℕ → Disk → Disk
  taken x d = bzero x (log_write (bblock sb x) (set_bit (bread (bblock sb x) d) (x % bpb)) d)

  -- The block of the bitmap that the scan from `b` reads, and the bit in it.
  in_block : (b y : ℕ) → b % bpb ≡ 0 → b ≤ y → y < b + bpb → bblock sb y ≡ bblock sb b
  in_block b y a lo hi = omega arith

  bit_of : (b y : ℕ) → b % bpb ≡ 0 → b ≤ y → y < b + bpb → y % bpb ≡ y - b
  bit_of b y a lo hi = omega arith

  scan-is_free :
      (b y : ℕ) (d : Disk) (free : Bool)
      → b % bpb ≡ 0
      → b ≤ y
      → y < b + bpb
      → is_free_bit (d.blocks (bblock sb b)) (y - b) ≡ free
      → is_free d y ≡ free
  scan-is_free b y d free a lo hi h = rw (in_block b y a lo hi, bit_of b y a lo hi) h

  before_scan :
      (b : ℕ) (d : Disk)
      → b % bpb ≡ 0
      → scan_bits bpb 0 b sb.size (d.blocks (bblock sb b)) ≡ none
      → (y : ℕ) → b ≤ y
      → y < b + bpb
      → y < sb.size
      → is_free d y ≡ false
  before_scan b d a e y lo hi lt = scan-is_free b y d false a lo hi (
      scan-none bpb 0 b sb.size (d.blocks (bblock sb b)) e (y - b) (omega arith) (omega arith)
        (omega arith))

  take_block-taken :
      (b bi : ℕ) (d : Disk)
      → b % bpb ≡ 0
      → bi < bpb
      → take_block sb b bi d ≡ (b + bi, taken (b + bi) d)
  unfolding take_block
  take_block-taken b bi d a lt =
      let block : bblock sb (b + bi) ≡ bblock sb b =
        in_block b (b + bi) a (omega arith) (omega arith) in
      let bit : (b + bi) % bpb ≡ bi = omega arith in rw (block, bit) refl

  pub balloc_from-some :
      (rounds b x : ℕ) (d d' : Disk)
      → b % bpb ≡ 0
      → balloc_from sb rounds b d ≡ some (x, d')
      → (b ≤ x)
        × (x < sb.size)
        × (is_free d x ≡ true)
        × ((y : ℕ) → b ≤ y → y < x → is_free d y ≡ false)
        × (d' ≡ taken x d)
  unfolding balloc_from
  balloc_from-some zero b x d d' a e = cc
  balloc_from-some (suc rounds) b x d d' a e =
      elim (Option-cases (scan_bits bpb 0 b sb.size (d.blocks (bblock sb b)))) [
        | inl missed ↦
            let (lo, lt, free, before, same) =
              balloc_from-some rounds (b + bpb) x d d' (omega arith)
                (rw (balloc_from, missed) at e) in
            (
              omega arith,
              lt,
              free,
              λ y l h. elim (Bool-cases (ltb y (b + bpb))) [
                | inl near ↦ before_scan b d a missed y l (ltb→lt y (b + bpb) near) (omega arith)
                | inr far ↦ before y (ltb→le y (b + bpb) far) h
              ],
              same,
            )
        | inr (bi, found) ↦
            let (lo, hi, lt, free, before) =
              scan-some bpb 0 b sb.size bi (d.blocks (bblock sb b)) found in
            let (at_x, same) =
              pair_inj (rw (take_block-taken b bi d a hi) at (rw (balloc_from, found) at e)) in
            (
              omega arith,
              rw (← at_x) lt,
              rw (← at_x) (
                  scan-is_free b (b + bi) d true a (omega arith) (omega arith)
                    (rw (add_sub b bi) free)),
              λ y l h.
                  scan-is_free b y d false a l (omega arith)
                    (before (y - b) (omega arith) (omega arith)),
              sym same ∙ rw at_x refl,
            )
      ]

  pub balloc_from-none :
      (rounds b : ℕ) (d : Disk)
      → b % bpb ≡ 0
      → balloc_from sb rounds b d ≡ none
      → (y : ℕ) → b ≤ y
      → y < b + rounds * bpb
      → y < sb.size
      → is_free d y ≡ false
  unfolding balloc_from
  balloc_from-none zero b d a e y lo hi lt = absurd (omega arith)
  balloc_from-none (suc rounds) b d a e y lo hi lt =
      elim (Option-cases (scan_bits bpb 0 b sb.size (d.blocks (bblock sb b)))) [
        | inl missed ↦ elim (Bool-cases (ltb y (b + bpb))) [
          | inl near ↦ before_scan b d a missed y lo (ltb→lt y (b + bpb) near) lt
          | inr far ↦
              balloc_from-none rounds (b + bpb) d (omega arith) (rw (balloc_from, missed) at e) y
                (ltb→le y (b + bpb) far) (omega arith) lt
        ]
        | inr (bi, found) ↦ absurd (no_result (rw (balloc_from, found) at e))
      ]
    where
      no_result : {a : ℕ × Disk} → some a ≡ none → ⊥
      no_result h = cc
