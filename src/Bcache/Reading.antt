-- ===== src/Bcache/Reading.antt =====
-- `bread` returns a buffer with the content of its block.
use operating_systems_cs.Base.{
  ℕ, ◌≡◌, refl, sym, ◌∙◌, ap, inl, inr, Bool, true, false, not, ◌&&◌, Option, none, some, List, leb,
  ◌==◌, Bool-cases, not_both, Option-cases, if◌then◌else◌, update,
}
use operating_systems_cs.Bcache.{Buf, is_block, bget, take_out}
use operating_systems_cs.Bcache.Apart.{clean_block, is_block-fields}
use operating_systems_cs.Bcache.Changes.{AllOf-old, put_back-Changed}
use operating_systems_cs.Bcache.Io.{
  Cache, move_block, iderw, Read, reads, panics, sleeps, put_in, fill, lock_and_fill, bread,
}
use operating_systems_cs.Fs.{Block}
use operating_systems_cs.Bcache.Coherent.{
  Shows, Settled, Represents, Holds, Holds-value, bget-Represents, put_in-Represents, put_in-Holds,
}

pub guard_some :
    {A : Type 0} {r : A} (g : Bool) (o : Option A) → (if g then none else o) ≡ some r → o ≡ some r
guard_some true o e = cc
guard_some false o e = e

pub iderw-some :
    (b : Buf) (c : Cache) (r : Buf × Cache) → iderw b c ≡ some r → some (move_block b c) ≡ some r
unfolding iderw
iderw-some b c r e = guard_some (leb c.disksize b.blockno) _ (
    guard_some (not (b.dev == 1)) _
      (guard_some (b.valid && not b.dirty) _ (guard_some (not b.locked) _ e)))

pub reads_inj : {i j : ℕ} {c d : Cache} → reads i c ≡ reads j d → (i ≡ j) × (c ≡ d)
reads_inj e = (cc, cc)

sleeps_inj : {i j : ℕ} {c d : Cache} → sleeps i c ≡ sleeps j d → (i ≡ j) × (c ≡ d)
sleeps_inj e = (cc, cc)

not_sleeps : {i j : ℕ} {c d : Cache} → reads i c ≡ sleeps j d → ⊥
not_sleeps e = cc

no_sleep : {i : ℕ} {c : Cache} → panics ≡ sleeps i c → ⊥
no_sleep e = cc

pub not_reads : {i j : ℕ} {c d : Cache} → sleeps i c ≡ reads j d → ⊥
not_reads e = cc

pub no_read : {i : ℕ} {c : Cache} → panics ≡ reads i c → ⊥
no_read e = cc

-- The buffer `b'`, locked and with the content of its block, is put in the place of `b`.
take_buf :
    {content : ℕ → Block} (i j n : ℕ) (b b' : Buf) (others : List Buf) (c c' : Cache)
    → take_out i c.bufs ≡ some (b, others)
    → is_block 1 n b ≡ true
    → (b'.id ≡ b.id) × (b'.dev ≡ b.dev) × (b'.blockno ≡ b.blockno) × (b'.dirty ≡ b.dirty)
    → b'.locked ≡ true
    → b'.valid ≡ true
    → b'.bytes ≡ content b.blockno
    → reads b'.id (put_in b' c) ≡ reads j c'
    → Represents content c
    → (j ≡ i) × Represents content c' × Holds i n (content n) c'
take_buf {content} i j n b b' others c c' e block (id, dev, blockno, dirty) locked valid bytes f r =
    let (ch, same) = put_back-Changed i b b' c.bufs others e id in
    let (same_j, same_c) = reads_inj f in
    let (is_dev, is_n) = is_block-fields 1 n b block in
    let kept : Represents content (put_in b' c) =
      put_in-Represents i b b' others c e id dev blockno (λ _ _. bytes ∙ ap content (sym blockno))
        (λ _. valid) (λ m h k. sym dirty ∙ h (rw (dev, blockno) k)) r in
    let held : Holds i n b'.bytes (put_in b' c) =
      put_in-Holds i n b b' others c e id locked valid (rw (dev, blockno) block) r.unique in
    let shows : b'.bytes ≡ content n = bytes ∙ ap content is_n in
    (sym same_j ∙ id ∙ same, rw (← same_c) kept, rw (← same_c) (Holds-value held shows))

move_block-clean :
    (b : Buf) (c : Cache)
    → b.dirty ≡ false
    → ◌≡◌ {A = Buf × Cache}
        (move_block b c)
        (record b { bytes = c.disk b.blockno; valid = true }, c)
move_block-clean b c clean =
    ap
      (λ t.
        if t
        then (
          record b { dirty = false; valid = true },
          record c { disk = update c.disk b.blockno b.bytes },
        )
        else (record b { bytes = c.disk b.blockno; valid = true }, c))
      clean

pub fill-valid : (b : Buf) (c : Cache) → b.valid ≡ true → fill b c ≡ reads b.id (put_in b c)
unfolding fill
fill-valid b c v = rw (fill, v)

abbrev done : Option (Buf × Cache) → Read
done o = elim o [ none ↦ panics | some (b', c') ↦ reads b'.id (put_in b' c') ]

pub fill-stale :
    (b : Buf) (c : Cache) (o : Option (Buf × Cache))
    → b.valid ≡ false
    → iderw b c ≡ o
    → fill b c ≡ done o
unfolding fill
fill-stale b c o v e =
    ap (λ t. if t then reads b.id (put_in b c) else done (iderw b c)) v ∙ ap done e

-- The lock of a free buffer with the block is taken, and its bytes are read where they are not valid.
fill-Represents :
    {content : ℕ → Block} (i j n : ℕ) (b : Buf) (others : List Buf) (c c' : Cache)
    → take_out i c.bufs ≡ some (b, others)
    → is_block 1 n b ≡ true
    → fill (record b { locked = true }) c ≡ reads j c'
    → Represents content c
    → (j ≡ i) × Represents content c' × Holds i n (content n) c'
fill-Represents {content} i j n b others c c' e block f r =
    let (ch, same) = put_back-Changed i b b c.bufs others e refl in
    let (dev, blockno) = is_block-fields 1 n b block in
    let b1 = record b { locked = true } in
    elim (Bool-cases b.valid) [
      | inl valid ↦
          take_buf i j n b b1 others c c' e block (refl, refl, refl, refl) refl valid
            (AllOf-old (Shows content) ch r.shown dev valid) (sym (fill-valid b1 c valid) ∙ f) r
      | inr stale ↦ elim (Bool-cases b.dirty) [
        | inl dirty ↦ absurd (not_both (AllOf-old Settled ch r.settled dirty) stale)
        | inr clean ↦ elim (Option-cases (iderw b1 c)) [
          | inl panicked ↦ absurd (no_read (sym (fill-stale b1 c none stale panicked) ∙ f))
          | inr (r1, got) ↦
              let read = record b1 { bytes = c.disk b.blockno; valid = true } in
              let read_it : iderw b1 c ≡ some (read, c) =
                got ∙ sym (iderw-some b1 c r1 got) ∙ ap some (move_block-clean b1 c clean) in
              take_buf i j n b read others c c' e block (refl, refl, refl, refl) refl refl
                (r.stored b.blockno (clean_block ch dev clean r.distinct))
                (sym (fill-stale b1 c (some (read, c)) stale read_it) ∙ f) r
        ]
      ]
    ]

-- The end of `bread`, also after it slept, for a buffer that has the block.
pub lock_and_fill-Represents :
    {content : ℕ → Block} (n j i : ℕ) (c c' : Cache)
    → ((b : Buf) (others : List Buf) → take_out j c.bufs ≡ some (b, others) → is_block 1 n b ≡ true)
    → Represents content c
    → lock_and_fill j c ≡ reads i c'
    → (i ≡ j) × Represents content c' × Holds j n (content n) c'
unfolding lock_and_fill
lock_and_fill-Represents n j i c c' block r e = elim (Option-cases (take_out j c.bufs)) [
  | inl missed ↦ absurd (no_read (rw (lock_and_fill, missed) at e))
  | inr ((b, others), got) ↦ elim (Bool-cases b.locked) [
    | inl taken ↦ absurd (not_reads (rw (lock_and_fill, got, taken) at e))
    | inr free ↦
        fill-Represents j i n b others c c' got (block b others got)
          (ap (λ t. if t then sleeps j c else fill (record b { locked = true }) c) (sym free)
            ∙ (rw (lock_and_fill, got) at e))
          r
  ]
]

-- If the buffers and the disk hold a content and bread of a block of device 1 returns, it returns a
-- buffer that is locked, valid, has the block and its content, and the buffers and the disk hold
-- that content.
pub bread_lem :
    {content : ℕ → Block} (n i : ℕ) (c c' : Cache)
    → Represents content c
    → bread 1 n c ≡ reads i c'
    → Represents content c' × Holds i n (content n) c'
unfolding bread
bread_lem n i c c' r e = elim (Option-cases (bget 1 n c.bufs)) [
  | inl panicked ↦ absurd (no_read (rw (bread, panicked) at e))
  | inr ((j, bs), got) ↦
      let (kept, block) = bget-Represents 1 n j c bs got r in
      let d = record c { bufs = bs } in
      let (same, kept', held) =
        lock_and_fill-Represents n j i d c' block kept (rw (bread, got) at e) in
      (kept', rw same held)
]

pub fill-sleeps : (b : Buf) (i : ℕ) (c c' : Cache) → fill b c ≡ sleeps i c' → ⊥
fill-sleeps b i c c' e = elim (Bool-cases b.valid) [
  | inl valid ↦ not_sleeps (sym (fill-valid b c valid) ∙ e)
  | inr stale ↦ elim (Option-cases (iderw b c)) [
    | inl panicked ↦ no_sleep (sym (fill-stale b c none stale panicked) ∙ e)
    | inr (r, got) ↦ not_sleeps (sym (fill-stale b c (some r) stale got) ∙ e)
  ]
]

-- A process that finds the lock held leaves the cache as it is.
lock_and_fill-sleeps :
    (j i : ℕ) (d c' : Cache) → lock_and_fill j d ≡ sleeps i c' → (j ≡ i) × (d ≡ c')
unfolding lock_and_fill
lock_and_fill-sleeps j i d c' f = elim (Option-cases (take_out j d.bufs)) [
  | inl missed ↦ absurd (no_sleep (rw (lock_and_fill, missed) at f))
  | inr ((b, others), there) ↦ elim (Bool-cases b.locked) [
    | inl taken ↦ sleeps_inj (rw (lock_and_fill, there, taken) at f)
    | inr free ↦ absurd (
        fill-sleeps (record b { locked = true }) i d c'
          (ap (λ t. if t then sleeps j d else fill (record b { locked = true }) d) (sym free)
            ∙ (rw (lock_and_fill, there) at f)))
  ]
]

-- `bread` sleeps for the buffer that `bget` takes.
pub bread-sleeps_bget :
    (n i : ℕ) (c c' : Cache)
    → bread 1 n c ≡ sleeps i c'
    → (bs : List Buf) × (bget 1 n c.bufs ≡ some (i, bs)) × (record c { bufs = bs } ≡ c')
unfolding bread
bread-sleeps_bget n i c c' e = elim (Option-cases (bget 1 n c.bufs)) [
  | inl panicked ↦ absurd (no_sleep (rw (bread, panicked) at e))
  | inr ((j, bs), got) ↦
      let (same_i, same_c) =
        lock_and_fill-sleeps j i (record c { bufs = bs }) c' (rw (bread, got) at e) in
      (bs, got ∙ ap (λ k. some (k, bs)) same_i, same_c)
]

-- `bread` that returns comes to the buffer that `bget` takes.
pub bread-reads_bget :
    (n i : ℕ) (c c' : Cache)
    → bread 1 n c ≡ reads i c'
    → (j : ℕ) × (bs : List Buf) × (bget 1 n c.bufs ≡ some (j, bs))
      × (lock_and_fill j (record c { bufs = bs }) ≡ reads i c')
unfolding bread
bread-reads_bget n i c c' e = elim (Option-cases (bget 1 n c.bufs)) [
  | inl panicked ↦ absurd (no_read (rw (bread, panicked) at e))
  | inr ((j, bs), got) ↦ (j, bs, got, rw (bread, got) at e)
]
