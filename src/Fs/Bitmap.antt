-- ===== src/Fs/Bitmap.antt =====
-- `balloc` and `bfree` as operations on the set of free blocks.
use mathlib.Core.Logic.{◌↔◌}
use operating_systems_cs.Base.{
  ℕ, ◌+◌, ◌-◌, ◌/◌, ◌%◌, ◌<◌, ◌≡◌, ◌≢◌, refl, sym, ◌∙◌, inl, inr, true, false, none, some, arith,
  ◌==◌, ==_sound, ==_refl, ==_ne, Bool-cases, Option-cases, not_both, if◌then◌else◌,
}
use operating_systems_cs.Fs.{
  Disk, bread, log_write, Superblock, bzero, bpb, bblock, clear_bit, balloc, bfree,
}
use operating_systems_cs.Fs.Bits.{
  IsBytes, is_free_bit-set_bit, is_free_bit-clear_bit, set_bit-IsBytes,
}
use operating_systems_cs.Fs.Scan.{is_free, taken, balloc_from-some, balloc_from-none}

module _ (sb : Superblock) where
  same_block : (x y : ℕ) → bblock sb y ≡ bblock sb x → (x % bpb == y % bpb) ≡ (x == y)
  same_block x y h = ground arith

  other_block : (x y : ℕ) → (bblock sb y == bblock sb x) ≡ false → (x == y) ≡ false
  other_block x y h = ground arith

  is_free-taken :
      (x y : ℕ) (d : Disk)
      → IsBytes (d.blocks (bblock sb x))
      → bblock sb y ≢ x
      → is_free sb (taken sb x d) y ≡ (if x == y then false else is_free sb d y)
  unfolding bzero
  is_free-taken x y d bytes ne = elim (Bool-cases (bblock sb y == bblock sb x)) [
    | inl block ↦
        let e : bblock sb y ≡ bblock sb x = ==_sound (bblock sb y) (bblock sb x) block in
        rw (==_ne (bblock sb y) x ne, block)
          (rw (e, ← (same_block x y e))
            (is_free_bit-set_bit (d.blocks (bblock sb x)) (x % bpb) (y % bpb) bytes))
    | inr away ↦ rw (==_ne (bblock sb y) x ne, away, other_block x y away) refl
  ]

  -- Every block of the bitmap is marked as used in the bitmap.
  abbrev pub IsReserved : Disk → Type 0
  IsReserved d = (y : ℕ) → y < sb.size → is_free sb d (bblock sb y) ≡ false

  abbrev pub AllBytes : Disk → Type 0
  AllBytes d = (b : ℕ) → IsBytes (d.blocks b)

  -- On a disk of bytes whose bitmap marks its own blocks as used, if balloc returns a block, it is
  -- the first free block below the size of the disk; the bitmap then marks it as used and every
  -- other block below the size as before, the block is zero, and no block but it and the one that
  -- holds its bit has changed.
  pub balloc_lem :
      (d d' : Disk) (x : ℕ)
      → AllBytes d
      → IsReserved d
      → balloc sb d ≡ some (x, d')
      → (x < sb.size)
        × (is_free sb d x ≡ true)
        × ((y : ℕ) → y < x → is_free sb d y ≡ false)
        × ((y : ℕ) → y < sb.size → is_free sb d' y ≡ (if x == y then false else is_free sb d y))
        × ((i : ℕ) → d'.blocks x i ≡ 0)
        × ((c : ℕ) → c ≢ x → c ≢ bblock sb x → d'.blocks c ≡ d.blocks c)
  unfolding balloc bzero
  balloc_lem d d' x bytes reserved e =
      let (lo, lt, free, before, same) =
        balloc_from-some sb ((sb.size + bpb - 1) / bpb) 0 x d d' refl e in
      (
        lt,
        free,
        λ y l. before y (omega arith) l,
        λ y l. rw same (
            is_free-taken x y d (bytes (bblock sb x))
              (λ clash. not_both (free) (rw clash at (reserved y l)))),
        λ i. rw same (rw (==_refl x) refl),
        λ c n m. rw same (rw (==_ne c x n, ==_ne c (bblock sb x) m) refl),
      )

  -- Within a transaction whose log has room, so that log_write does not panic, balloc panics exactly
  -- if the bitmap marks every block below the size of the disk as used.
  pub balloc-eq-none :
      (d : Disk) → (balloc sb d ≡ none) ↔ ((y : ℕ) → y < sb.size → is_free sb d y ≡ false)
  unfolding balloc
  balloc-eq-none d = (
    λ e y lt.
        balloc_from-none sb ((sb.size + bpb - 1) / bpb) 0 d refl e y (omega arith) (omega arith) lt,
    λ used. elim (Option-cases (balloc sb d)) [
      | inl none_left ↦ none_left
      | inr ((x, d'), e) ↦
          let (lo, lt, free, before, same) =
            balloc_from-some sb ((sb.size + bpb - 1) / bpb) 0 x d d' refl e in
          absurd (not_both free (used x lt))
    ],
  )

  -- The disk after `bfree` of a block in use.
  abbrev pub freed : ℕ → Disk → Disk
  freed x d = log_write (bblock sb x) (clear_bit (bread (bblock sb x) d) (x % bpb)) d

  is_free-freed :
      (x y : ℕ) (d : Disk)
      → IsBytes (d.blocks (bblock sb x))
      → is_free sb (freed x d) y ≡ (if x == y then true else is_free sb d y)
  is_free-freed x y d bytes = elim (Bool-cases (bblock sb y == bblock sb x)) [
    | inl block ↦
        let e : bblock sb y ≡ bblock sb x = ==_sound (bblock sb y) (bblock sb x) block in
        rw block (
          rw (e, ← (same_block x y e))
            (is_free_bit-clear_bit (d.blocks (bblock sb x)) (x % bpb) (y % bpb) bytes))
    | inr away ↦ rw (away, other_block x y away) refl
  ]

  pub bfree-used : (x : ℕ) (d : Disk) → is_free sb d x ≡ false → bfree sb x d ≡ some (freed x d)
  unfolding bfree
  bfree-used x d used = rw (bfree, used) refl

  bfree-free : (x : ℕ) (d : Disk) → is_free sb d x ≡ true → bfree sb x d ≡ none
  unfolding bfree
  bfree-free x d free = rw (bfree, free) refl

  -- `bfree` panics exactly where the block is free already.
  pub bfree-eq-none : (x : ℕ) (d : Disk) → (bfree sb x d ≡ none) ↔ (is_free sb d x ≡ true)
  bfree-eq-none x d = (
    λ e. elim (Bool-cases (is_free sb d x)) [
      | inl free ↦ free
      | inr used ↦ absurd (no_result (sym (bfree-used x d used) ∙ e))
    ],
    bfree-free x d,
  )
    where
      no_result : {a : Disk} → some a ≡ none → ⊥
      no_result h = cc

  taken-IsBytes : (x b : ℕ) (d : Disk) → AllBytes d → IsBytes ((taken sb x d).blocks b)
  unfolding bzero
  taken-IsBytes x b d bytes i = elim (Bool-cases (b == x)) [
    | inl zeroed ↦ rw zeroed (omega arith)
    | inr other ↦ elim (Bool-cases (b == bblock sb x)) [
      | inl bitmap ↦
          rw (other, bitmap)
            (set_bit-IsBytes (d.blocks (bblock sb x)) (x % bpb) (bytes (bblock sb x)) i)
      | inr away ↦ rw (other, away) (bytes b i)
    ]
  ]

  -- On a disk of bytes whose bitmap marks its own blocks as used, bfree of the block that balloc
  -- returned succeeds, and every block below the size of the disk is then free exactly if it was
  -- before balloc.
  pub bfree-balloc :
      (d d' : Disk) (x : ℕ)
      → AllBytes d
      → IsReserved d
      → balloc sb d ≡ some (x, d')
      → (d'' : Disk) × (bfree sb x d' ≡ some d'')
        × ((y : ℕ) → y < sb.size → is_free sb d'' y ≡ is_free sb d y)
  unfolding balloc
  bfree-balloc d d' x bytes reserved e =
      let (lt, free, before, now, zeroed, others) = balloc_lem d d' x bytes reserved e in
      let (lo, lt', free', before', same) =
        balloc_from-some sb ((sb.size + bpb - 1) / bpb) 0 x d d' refl e in
      let used : is_free sb d' x ≡ false = now x lt ∙ rw (==_refl x) refl in
      let bytes' : IsBytes (d'.blocks (bblock sb x)) =
        λ i. rw same (taken-IsBytes x (bblock sb x) d bytes i) in
      (
        freed x d',
        bfree-used x d' used,
        λ y l. is_free-freed x y d' bytes' ∙ rw (now y l) (given_back x y d free),
      )
    where
      given_back :
          (x y : ℕ) (d : Disk)
          → is_free sb d x ≡ true
          → (if x == y then true else (if x == y then false else is_free sb d y)) ≡ is_free sb d y
      given_back x y d free = elim (Bool-cases (x == y)) [
        | inl here ↦ rw here (rw (← (==_sound x y here)) (sym free))
        | inr other ↦ rw other refl
      ]
