-- ===== src/Bcache/Writing.antt =====
-- Writes into the buffers, and from them to the disk.
use operating_systems_cs.Base.{
  ℕ, ◌≡◌, refl, sym, ◌∙◌, ap, inl, inr, Bool, true, false, not, Option, none, some, List, arith,
  ◌==◌, ==_refl, ==_sound, Bool-cases, not_both, if◌then◌else◌, update,
}
use operating_systems_cs.Bcache.{Buf, is_block, take_out}
use operating_systems_cs.Bcache.Apart.{AllOf-others, Distinct-Changed, is_block-fields}
use operating_systems_cs.Bcache.Changes.{
  AllOf-to, AllOf-from, AllOf-old, AllOf-new, Unique-Changed, put_back-Changed,
}
use operating_systems_cs.Bcache.Io.{Cache, put_in, bwrite, store_bytes}
use operating_systems_cs.Fs.{Block}
use operating_systems_cs.Bcache.Coherent.{Shows, Settled, Clean, Represents, Holds, put_in-Holds}
use operating_systems_cs.Bcache.Reading.{guard_some, iderw-some}

update-same : (f : ℕ → Block) (n m : ℕ) (v : Block) → m ≡ n → update f n v m ≡ v
update-same f n m v e = ap (λ t. if t then v else f m) (ap (λ x. m == x) (sym e) ∙ ==_refl m)

update-other : (f : ℕ → Block) (n m : ℕ) (v : Block) → (m == n) ≡ false → update f n v m ≡ f m
update-other f n m v e = ap (λ t. if t then v else f m) e

-- A buffer has no other block than its own.
other_block : (b : Buf) (m : ℕ) {P : Type 0} → (m == b.blockno) ≡ false → is_block 1 m b ≡ true → P
other_block b m away k =
    let (dev, same) = is_block-fields 1 m b k in
    absurd (not_both (ap (λ x. m == x) same ∙ ==_refl m) away)

apart_number : (m : ℕ) (x : Buf) → x.dev ≡ 1 → is_block 1 m x ≡ false → (x.blockno == m) ≡ false
apart_number m x on away = ground arith

put_result :
    (o : Option (Buf × Cache)) (c' : Cache)
    → elim o [ none ↦ none | some (b, c) ↦ some (put_in b c) ] ≡ some c'
    → (b : Buf) × (c : Cache) × (o ≡ some (b, c)) × (c' ≡ put_in b c)
put_result none c' e = cc
put_result (some (b, c)) c' e = (b, c, refl, cc)

pair_result :
    {b d : Buf} {c e : Cache}
    → ◌≡◌ {A = Option (Buf × Cache)} (some (b, c)) (some (d, e))
    → (b ≡ d) × (c ≡ e)
pair_result e = (cc, cc)

pub bwrite-some :
    (i : ℕ) (b : Buf) (others : List Buf) (c c' : Cache)
    → take_out i c.bufs ≡ some (b, others)
    → bwrite i c ≡ some c'
    → c'
      ≡ put_in
          (record b { dirty = false; valid = true })
          (record c { disk = update c.disk b.blockno b.bytes })
unfolding bwrite
bwrite-some i b others c c' e f =
    let (b1, c1, got, done) = put_result _ c' (guard_some (not b.locked) _ (rw (bwrite, e) at f)) in
    let (same_b, same_c) = pair_result (iderw-some (record b { dirty = true }) c (b1, c1) got) in
    done ∙ ap (λ x. put_in x c1) (sym same_b) ∙ ap (put_in _) (sym same_c)

-- `bwrite` by the holder of a buffer keeps the content, and puts the bytes on the disk.
pub bwrite_lem :
    {content : ℕ → Block} (i n : ℕ) (v : Block) (c c' : Cache)
    → Represents content c
    → Holds i n v c
    → bwrite i c ≡ some c'
    → Represents content c' × (c'.disk n ≡ v)
bwrite_lem {content} i n v c c' r h e =
    let b = h.buf in
    let b' = record b { dirty = false; valid = true } in
    let (ch, same) = put_back-Changed i b b' c.bufs h.others h.stands refl in
    let (dev, blockno) = is_block-fields 1 n b h.block in
    let shows : b.bytes ≡ content b.blockno = AllOf-old (Shows content) ch r.shown dev h.valid in
    let d = put_in b' (record c { disk = update c.disk b.blockno b.bytes }) in
    let kept : Represents content d = record {
      distinct = Distinct-Changed ch refl refl r.distinct;
      unique = Unique-Changed ch refl r.unique;
      shown = AllOf-to (Shows content) ch (λ _ _. shows) r.shown;
      settled = AllOf-to Settled ch (λ _. refl) r.settled;
      stored = λ m all. elim (Bool-cases (m == b.blockno)) [
        | inl same ↦
            let m_is = ==_sound m b.blockno same in
            update-same c.disk b.blockno m b.bytes m_is ∙ shows ∙ ap content (sym m_is)
        | inr away ↦
            update-other c.disk b.blockno m b.bytes away
            ∙ r.stored m (AllOf-from (Clean m) ch (other_block b m away) all)
      ];
    } in
    let written : d.disk n ≡ v = update-same c.disk b.blockno n b.bytes (sym blockno) ∙ h.bytes in
    rw (bwrite-some i b h.others c c' h.stands e) (kept, written)

then_some : {A : Type 0} (t : Bool) (a b : A) → (if t then some a else none) ≡ some b → b ≡ a
then_some true a b e = cc
then_some false a b e = cc

pub store_bytes-some :
    (i : ℕ) (w : Block) (b : Buf) (others : List Buf) (c c' : Cache)
    → take_out i c.bufs ≡ some (b, others)
    → store_bytes i w c ≡ some c'
    → c' ≡ put_in (record b { bytes = w; dirty = true }) c
unfolding store_bytes
store_bytes-some i w b others c c' e f = then_some b.locked _ c' (rw (store_bytes, e) at f)

-- What the holder stores is the content of its block from then on.
pub store_bytes_lem :
    {content : ℕ → Block} (i n : ℕ) (v w : Block) (c c' : Cache)
    → Represents content c
    → Holds i n v c
    → store_bytes i w c ≡ some c'
    → Represents (update content n w) c' × Holds i n w c'
store_bytes_lem {content} i n v w c c' r h e =
    let b = h.buf in
    let b' = record b { bytes = w; dirty = true } in
    let (ch, same) = put_back-Changed i b b' c.bufs h.others h.stands refl in
    let (dev, blockno) = is_block-fields 1 n b h.block in
    let new = update content n w in
    let unlike : (x : Buf) → is_block 1 b.blockno x ≡ false → Shows content x → Shows new x =
      λ x away shows on valid.
        shows on valid
        ∙ sym (
            update-other content n x.blockno w
              (ap (λ k. x.blockno == k) (sym blockno) ∙ apart_number b.blockno x on away)) in
    let kept : Represents new (put_in b' c) = record {
      distinct = Distinct-Changed ch refl refl r.distinct;
      unique = Unique-Changed ch refl r.unique;
      shown =
          AllOf-others (Shows content) (Shows new) ch dev r.distinct
            (λ _ _. sym (update-same content n b.blockno w blockno)) unlike r.shown;
      settled = AllOf-to Settled ch (λ _. h.valid) r.settled;
      stored = λ m all. elim (Bool-cases (m == n)) [
        | inl same ↦ absurd (
            not_both refl
              (AllOf-new (Clean m) ch all (ap (λ k. is_block 1 k b) (==_sound m n same) ∙ h.block)))
        | inr away ↦
            r.stored m
              (AllOf-from (Clean m) ch (other_block b m (ap (λ k. m == k) blockno ∙ away)) all)
            ∙ sym (update-other content n m w away)
      ];
    } in
    let held = put_in-Holds i n b b' h.others c h.stands refl h.locked h.valid h.block r.unique in
    rw (store_bytes-some i w b h.others c c' h.stands e) (kept, held)
