-- ===== src/Bcache/Distinct.antt =====
-- A block stands in one buffer at most.
use operating_systems_cs.Base.{
  ℕ, zero, suc, ◌≡◌, refl, sym, ◌⊎◌, inl, inr, true, false, not, ◌&&◌, Option, none, some, List, [],
  ◌∷◌, arith, ◌==◌, ==_refl, Bool-cases, Option-cases,
}
use operating_systems_cs.Bcache.{Buf, is_block, take_cached, recycle_last, bget, binit_from, binit}

-- No buffer has the block.
unfoldable pub Absent : (dev blockno : ℕ) → List Buf → Type 0
Absent dev blockno [] = Unit
Absent dev blockno (b ∷ bs) = (is_block dev blockno b ≡ false) × Absent dev blockno bs

-- Buffers that were used, those with a device, have different blocks.
unfoldable pub Distinct : List Buf → Type 0
Distinct [] = Unit
Distinct (b ∷ bs) = ((b.dev ≡ 0) ⊎ Absent b.dev b.blockno bs) × Distinct bs

-- Buffer `i` has the block.
unfoldable pub Has : (i dev blockno : ℕ) → List Buf → Type 0
Has i dev blockno [] = ⊥
Has i dev blockno (b ∷ bs) = ((b.id ≡ i) × (is_block dev blockno b ≡ true)) ⊎ Has i dev blockno bs

cons_inj :
    {i j : ℕ} {bs cs : List Buf}
    → ◌≡◌ {A = Option (ℕ × List Buf)} (some (i, bs)) (some (j, cs))
    → (i ≡ j) × (bs ≡ cs)
cons_inj e = (cc, cc)

no_result : {i : ℕ} {cs : List Buf} → ◌≡◌ {A = Option (ℕ × List Buf)} none (some (i, cs)) → ⊥
no_result e = cc

take_cached-none :
    (dev blockno : ℕ) (bs : List Buf) → take_cached dev blockno bs ≡ none → Absent dev blockno bs
unfolding take_cached Absent
take_cached-none dev blockno [] e = tt
take_cached-none dev blockno (b ∷ bs) e = elim (Bool-cases (is_block dev blockno b)) [
  | inl here ↦ absurd (no_result (sym (rw here at e)))
  | inr away ↦ elim (Option-cases (take_cached dev blockno bs)) [
    | inl missed ↦ (away, take_cached-none dev blockno bs missed)
    | inr ((i, cs), got) ↦ absurd (no_result (sym (rw (away, got) at e)))
  ]
]

-- The blocks of the buffers stay.
take_cached-Absent :
    (dev blockno i d n : ℕ) (bs cs : List Buf)
    → take_cached dev blockno bs ≡ some (i, cs)
    → Absent d n bs
    → Absent d n cs
unfolding take_cached Absent
take_cached-Absent dev blockno i d n [] cs e h = cc
take_cached-Absent dev blockno i d n (b ∷ bs) cs e (a, h) =
    elim (Bool-cases (is_block dev blockno b)) [
      | inl here ↦ let (same_i, same) = cons_inj (rw here at e) in rw (← same) (a, h)
      | inr away ↦ elim (Option-cases (take_cached dev blockno bs)) [
        | inl missed ↦ absurd (no_result (rw (away, missed) at e))
        | inr ((j, ds), got) ↦
            let (same_i, same) = cons_inj (rw (away, got) at e) in
            rw (← same) (a, take_cached-Absent dev blockno j d n bs ds got h)
      ]
    ]

take_cached-Distinct :
    (dev blockno i : ℕ) (bs cs : List Buf)
    → take_cached dev blockno bs ≡ some (i, cs)
    → Distinct bs
    → Distinct cs × Has i dev blockno cs
unfolding take_cached Distinct Has
take_cached-Distinct dev blockno i [] cs e h = cc
take_cached-Distinct dev blockno i (b ∷ bs) cs e (a, h) =
    elim (Bool-cases (is_block dev blockno b)) [
      | inl here ↦
          let (same_i, same) = cons_inj (rw here at e) in rw (← same) ((a, h), inl (same_i, here))
      | inr away ↦ elim (Option-cases (take_cached dev blockno bs)) [
        | inl missed ↦ absurd (no_result (rw (away, missed) at e))
        | inr ((j, ds), got) ↦
            let (same_i, same) = cons_inj (rw (away, got) at e) in
            let (kept, has) = take_cached-Distinct dev blockno j bs ds got h in
            let apart : (b.dev ≡ 0) ⊎ Absent b.dev b.blockno ds = elim a [
              | inl z ↦ inl z
              | inr k ↦ inr (take_cached-Absent dev blockno j b.dev b.blockno bs ds got k)
            ] in
            rw (← same) ((apart, kept), inr (rw same_i at has))
      ]
    ]

-- The second loop changes a block to the new one only.
recycle_last-Absent :
    (dev blockno i d n : ℕ) (bs cs : List Buf)
    → recycle_last dev blockno bs ≡ some (i, cs)
    → ((dev == d) && (blockno == n)) ≡ false
    → Absent d n bs
    → Absent d n cs
unfolding recycle_last Absent
recycle_last-Absent dev blockno i d n [] cs e ne h = cc
recycle_last-Absent dev blockno i d n (b ∷ bs) cs e ne (a, h) =
    elim (Option-cases (recycle_last dev blockno bs)) [
      | inr ((j, ds), got) ↦
          let (same_i, same) = cons_inj (rw got at e) in
          rw (← same) (a, recycle_last-Absent dev blockno j d n bs ds got ne h)
      | inl missed ↦ elim (Bool-cases ((b.refcnt == 0) && not b.dirty)) [
        | inl unused ↦
            let (same_i, same) = cons_inj (rw (missed, unused) at e) in rw (← same) (ne, h)
        | inr used ↦ absurd (no_result (rw (missed, used) at e))
      ]
    ]

other_block : (a b c d : ℕ) → ((a == c) && (b == d)) ≡ false → ((c == a) && (d == b)) ≡ false
other_block a b c d h = ground arith

recycle_last-Distinct :
    (dev blockno i : ℕ) (bs cs : List Buf)
    → recycle_last dev blockno bs ≡ some (i, cs)
    → Absent dev blockno bs
    → Distinct bs
    → Distinct cs × Has i dev blockno cs
unfolding recycle_last Absent Distinct Has
recycle_last-Distinct dev blockno i [] cs e n h = cc
recycle_last-Distinct dev blockno i (b ∷ bs) cs e (n, ns) (a, h) =
    elim (Option-cases (recycle_last dev blockno bs)) [
      | inr ((j, ds), got) ↦
          let (same_i, same) = cons_inj (rw got at e) in
          let (kept, has) = recycle_last-Distinct dev blockno j bs ds got ns h in
          let apart : (b.dev ≡ 0) ⊎ Absent b.dev b.blockno ds = elim a [
            | inl z ↦ inl z
            | inr k ↦ inr (
                recycle_last-Absent dev blockno j b.dev b.blockno bs ds got
                  (other_block b.dev b.blockno dev blockno n) k)
          ] in
          rw (← same) ((apart, kept), inr (rw same_i at has))
      | inl missed ↦ elim (Bool-cases ((b.refcnt == 0) && not b.dirty)) [
        | inl unused ↦
            let (same_i, same) = cons_inj (rw (missed, unused) at e) in
            rw (← same) ((inr ns, h), inl (same_i, ground (arith, ==_refl dev, ==_refl blockno)))
        | inr used ↦ absurd (no_result (rw (missed, used) at e))
      ]
    ]

-- In a buffer cache where the buffers that have a device have different blocks, as after binit, if
-- bget returns a buffer, that buffer has the block that was asked for, and the buffers that have a
-- device still have different blocks.
pub bget-Distinct :
    (dev blockno i : ℕ) (bs cs : List Buf)
    → Distinct bs
    → bget dev blockno bs ≡ some (i, cs)
    → Distinct cs × Has i dev blockno cs
unfolding bget
bget-Distinct dev blockno i bs cs h e = elim (Option-cases (take_cached dev blockno bs)) [
  | inr ((j, ds), got) ↦
      let (same_i, same) = cons_inj (rw (bget, got) at e) in
      let (kept, has) = take_cached-Distinct dev blockno j bs ds got h in
      rw (← same) (kept, (rw same_i at has))
  | inl missed ↦
      recycle_last-Distinct dev blockno i bs cs (rw (bget, missed) at e)
        (take_cached-none dev blockno bs missed) h
]

pub binit_from-Distinct : (n : ℕ) → Distinct (binit_from n)
unfolding binit_from Distinct
binit_from-Distinct zero = tt
binit_from-Distinct (suc n) = (inl refl, binit_from-Distinct n)

-- The buffers that `binit` sets up have no device.
pub binit-Distinct : Distinct binit
unfolding binit
binit-Distinct = binit_from-Distinct 30
