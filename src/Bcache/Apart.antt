-- ===== src/Bcache/Apart.antt =====
-- Changes of one buffer where the buffers have different blocks.
use operating_systems_cs.Base.{
  ℕ, ◌≡◌, ◌⊎◌, inl, inr, true, false, List, [], ◌∷◌, arith, ==_refl, Bool-cases, not_both,
}
use operating_systems_cs.Bcache.{Buf, is_block}
use operating_systems_cs.Bcache.Distinct.{Absent, Distinct}
use operating_systems_cs.Bcache.Changes.{AllOf, Changed, here, there}

Absent-Changed :
    (dev blockno : ℕ) {b c : Buf} {bs cs : List Buf}
    → Changed b c bs cs
    → c.dev ≡ b.dev
    → c.blockno ≡ b.blockno
    → Absent dev blockno bs
    → Absent dev blockno cs
unfolding Absent
Absent-Changed dev blockno here d n (a, h) = (rw (d, n) a, h)
Absent-Changed dev blockno (there ch) d n (a, h) = (a, Absent-Changed dev blockno ch d n h)

pub Distinct-Changed :
    {b c : Buf} {bs cs : List Buf}
    → Changed b c bs cs
    → c.dev ≡ b.dev
    → c.blockno ≡ b.blockno
    → Distinct bs
    → Distinct cs
unfolding Distinct
Distinct-Changed here d n (a, h) = (rw (d, n) a, h)
Distinct-Changed (there ch) d n (inl z, h) = (inl z, Distinct-Changed ch d n h)
Distinct-Changed (there {x = x} ch) d n (inr a, h) =
    (inr (Absent-Changed x.dev x.blockno ch d n a), Distinct-Changed ch d n h)

Absent-old :
    (dev blockno : ℕ) {b c : Buf} {bs cs : List Buf}
    → Changed b c bs cs
    → Absent dev blockno bs
    → is_block dev blockno b ≡ false
unfolding Absent
Absent-old dev blockno here (a, h) = a
Absent-old dev blockno (there ch) (a, h) = Absent-old dev blockno ch h

Absent-clean :
    (dev blockno : ℕ) (bs : List Buf)
    → Absent dev blockno bs
    → AllOf (λ x. is_block dev blockno x ≡ true → x.dirty ≡ false) bs
unfolding Absent AllOf
Absent-clean dev blockno [] h = tt
Absent-clean dev blockno (b ∷ bs) (a, h) =
    ((λ e. absurd (not_both e a)), Absent-clean dev blockno bs h)

pub is_block-fields :
    (dev blockno : ℕ) (x : Buf)
    → is_block dev blockno x ≡ true
    → (x.dev ≡ dev) × (x.blockno ≡ blockno)
is_block-fields dev blockno x h = ground arith

Absent-AllOf :
    (P Q : Buf → Type 0) (dev blockno : ℕ) (bs : List Buf)
    → ((x : Buf) → is_block dev blockno x ≡ false → P x → Q x)
    → Absent dev blockno bs
    → AllOf P bs
    → AllOf Q bs
unfolding Absent AllOf
Absent-AllOf P Q dev blockno [] other h ps = tt
Absent-AllOf P Q dev blockno (b ∷ bs) other (a, h) (p, ps) =
    (other b a p, Absent-AllOf P Q dev blockno bs other h ps)

-- A buffer in front of `b` that is used has another block.
apart_block :
    (b x : Buf) {c : Buf} {bs cs : List Buf}
    → Changed b c bs cs
    → b.dev ≡ 1
    → (x.dev ≡ 0) ⊎ Absent x.dev x.blockno bs
    → is_block 1 b.blockno x ≡ false
apart_block b x ch d a = elim (Bool-cases (is_block 1 b.blockno x)) [
  | inr e ↦ e
  | inl e ↦
      let (dev, blockno) = is_block-fields 1 b.blockno x e in
      elim a [
        | inl z ↦ absurd (omega arith)
        | inr k ↦ absurd (
            not_both {b = is_block 1 b.blockno b} (ground (arith, ==_refl b.blockno, ==_refl b.dev))
              (Absent-old 1 b.blockno ch (rw (dev, blockno) at k)))
      ]
]

-- A block that a clean buffer holds stands in no dirty buffer.
pub clean_block :
    {b c : Buf} {bs cs : List Buf}
    → Changed b c bs cs
    → b.dev ≡ 1
    → b.dirty ≡ false
    → Distinct bs
    → AllOf (λ x. is_block 1 b.blockno x ≡ true → x.dirty ≡ false) bs
unfolding Distinct AllOf
clean_block {b = b} (here {bs = bs}) d clean (inl z, h) = absurd (omega arith)
clean_block {b = b} (here {bs = bs}) d clean (inr a, h) =
    (λ _. clean, Absent-clean 1 b.blockno bs (rw d at a))
clean_block {b = b} (there {x = x} ch) d clean (a, h) =
    ((λ e. absurd (not_both e (apart_block b x ch d a))), clean_block ch d clean h)

-- The buffers apart from the one that changes have other blocks.
pub AllOf-others :
    (P Q : Buf → Type 0) {b c : Buf} {bs cs : List Buf}
    → Changed b c bs cs
    → b.dev ≡ 1
    → Distinct bs
    → Q c
    → ((x : Buf) → is_block 1 b.blockno x ≡ false → P x → Q x)
    → AllOf P bs
    → AllOf Q cs
unfolding Distinct AllOf
AllOf-others P Q {b = b} (here {bs = bs}) d (inl z, h) q other (p, ps) = absurd (omega arith)
AllOf-others P Q {b = b} (here {bs = bs}) d (inr a, h) q other (p, ps) =
    (q, Absent-AllOf P Q 1 b.blockno bs other (rw d at a) ps)
AllOf-others P Q {b = b} (there {x = x} ch) d (a, h) q other (p, ps) =
    (other x (apart_block b x ch d a) p, AllOf-others P Q ch d h q other ps)
