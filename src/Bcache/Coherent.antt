-- ===== src/Bcache/Coherent.antt =====
-- The buffers and the disk below them hold one content: what was last stored in each block.
use operating_systems_cs.Base.{
  ℕ, ◌≡◌, refl, sym, ◌∙◌, ap, ◌⊎◌, inl, inr, true, false, some, List, arith, ==_refl, not_both,
  Option-cases,
}
use operating_systems_cs.Bcache.{Buf, is_block, take_cached, recycle_last, bget, take_out, put_back}
use operating_systems_cs.Bcache.Apart.{Distinct-Changed}
use operating_systems_cs.Bcache.Changes.{
  AllOf, Unique, Changed, AllOf-to, AllOf-from, AllOf-old, AllOf-new, Unique-Changed,
  take_cached-Changed, recycle_last-Changed, put_back-Changed, take_out-Changed, take_out_inj,
}
use operating_systems_cs.Bcache.Distinct.{Distinct, bget-Distinct}
use operating_systems_cs.Bcache.Io.{Cache, put_in}
use operating_systems_cs.Fs.{Block}

abbrev pub Shows : (ℕ → Block) → Buf → Type 0
Shows content b = b.dev ≡ 1 → b.valid ≡ true → b.bytes ≡ content b.blockno

abbrev pub Settled : Buf → Type 0
Settled b = b.dirty ≡ true → b.valid ≡ true

abbrev pub Clean : ℕ → Buf → Type 0
Clean n b = is_block 1 n b ≡ true → b.dirty ≡ false

-- Valid buffers of the disk have the content of their blocks, and the disk has it where no buffer is
-- dirty.
pub record Represents (content : ℕ → Block) (c : Cache) : Type 0 where
  pub distinct : Distinct c.bufs
  pub unique : Unique c.bufs
  pub shown : AllOf (Shows content) c.bufs
  pub settled : AllOf Settled c.bufs
  pub stored : (n : ℕ) → AllOf (Clean n) c.bufs → c.disk n ≡ content n

-- A change of one buffer that stays in step with the content.
Represents-Changed :
    {content : ℕ → Block} {b b' : Buf} (c : Cache) (bs : List Buf)
    → Changed b b' c.bufs bs
    → b'.id ≡ b.id
    → Distinct bs
    → Shows content b'
    → Settled b'
    → ((n : ℕ) → Clean n b' → Clean n b)
    → Represents content c
    → Represents content (record c { bufs = bs })
Represents-Changed {content} {b} {b'} c bs ch id distinct shows settles clean r = record {
  distinct = distinct;
  unique = Unique-Changed ch id r.unique;
  shown = AllOf-to (Shows content) ch shows r.shown;
  settled = AllOf-to Settled ch settles r.settled;
  stored = λ n all. r.stored n (AllOf-from (Clean n) ch (clean n (AllOf-new (Clean n) ch all)) all);
}

pub bget-cases :
    (dev n i : ℕ) (bs cs : List Buf)
    → bget dev n bs ≡ some (i, cs)
    → (take_cached dev n bs ≡ some (i, cs)) ⊎ (recycle_last dev n bs ≡ some (i, cs))
unfolding bget
bget-cases dev n i bs cs e = elim (Option-cases (take_cached dev n bs)) [
  | inr (p, got) ↦ inl (got ∙ (rw (bget, got) at e))
  | inl missed ↦ inr (rw (bget, missed) at e)
]

found_block :
    {b c : Buf} {bs cs : List Buf} (dev n i : ℕ)
    → Changed b c bs cs
    → Unique cs
    → c.id ≡ i
    → is_block dev n c ≡ true
    → (x : Buf) (others : List Buf) → take_out i cs ≡ some (x, others)
    → is_block dev n x ≡ true
found_block {c = c} {cs = cs} dev n i ch u id block x others e =
    let (rest, got) = take_out-Changed i ch u id in
    ap (is_block dev n) (sym (take_out_inj i cs got e)) ∙ block

-- `bget` keeps the content, and the buffer that it finds by its number has the block.
pub bget-Represents :
    {content : ℕ → Block} (dev n i : ℕ) (c : Cache) (bs : List Buf)
    → bget dev n c.bufs ≡ some (i, bs)
    → Represents content c
    → Represents content (record c { bufs = bs })
      × ((b : Buf) (others : List Buf) → take_out i bs ≡ some (b, others) → is_block dev n b ≡ true)
bget-Represents {content} dev n i c bs e r =
    let (distinct, has) = bget-Distinct dev n i c.bufs bs r.distinct e in
    elim (bget-cases dev n i c.bufs bs e) [
      | inl got ↦
          let (b, ch, id, block) = take_cached-Changed dev n i c.bufs bs got in
          let kept =
            Represents-Changed c bs ch refl distinct (AllOf-old (Shows content) ch r.shown)
              (AllOf-old Settled ch r.settled) (λ _ h. h) r in
          (kept, found_block dev n i ch kept.unique id block)
      | inr got ↦
          let (b, ch, id, clean, unused) = recycle_last-Changed dev n i c.bufs bs got in
          let kept =
            Represents-Changed c bs ch refl distinct (λ _ v. absurd (not_both v refl))
              (λ d. absurd (not_both d refl)) (λ _ _ _. clean) r in
          (kept, found_block dev n i ch kept.unique id (ground (arith, ==_refl dev, ==_refl n)))
    ]

-- Buffer `i` is locked and has the bytes `v` of block `n`.
pub record Holds (i n : ℕ) (v : Block) (c : Cache) : Type 0 where
  pub buf : Buf
  pub others : List Buf
  pub stands : take_out i c.bufs ≡ some (buf, others)
  pub locked : buf.locked ≡ true
  pub valid : buf.valid ≡ true
  pub block : is_block 1 n buf ≡ true
  pub bytes : buf.bytes ≡ v

-- Buffer `b` is put in its place, changed, with the disk as it stays or becomes.
pub put_in-Represents :
    {content : ℕ → Block} (i : ℕ) (b b' : Buf) (others : List Buf) (c : Cache)
    → take_out i c.bufs ≡ some (b, others)
    → b'.id ≡ b.id
    → b'.dev ≡ b.dev
    → b'.blockno ≡ b.blockno
    → Shows content b'
    → Settled b'
    → ((n : ℕ) → Clean n b' → Clean n b)
    → Represents content c
    → Represents content (put_in b' c)
put_in-Represents i b b' others c e id dev blockno shows settles clean r =
    let (ch, same) = put_back-Changed i b b' c.bufs others e id in
    Represents-Changed c (put_back b' c.bufs) ch id (Distinct-Changed ch dev blockno r.distinct)
      shows settles clean r

pub put_in-Holds :
    (i n : ℕ) (b b' : Buf) (others : List Buf) (c : Cache)
    → take_out i c.bufs ≡ some (b, others)
    → b'.id ≡ b.id
    → b'.locked ≡ true
    → b'.valid ≡ true
    → is_block 1 n b' ≡ true
    → Unique c.bufs
    → Holds i n b'.bytes (put_in b' c)
put_in-Holds i n b b' others c e id locked valid block u =
    let (ch, same) = put_back-Changed i b b' c.bufs others e id in
    let (rest, got) = take_out-Changed i ch (Unique-Changed ch id u) (id ∙ same) in
    record {
      buf = b';
      others = rest;
      stands = got;
      locked = locked;
      valid = valid;
      block = block;
      bytes = refl;
    }

pub Holds-value : {i n : ℕ} {v w : Block} {c : Cache} → Holds i n v c → v ≡ w → Holds i n w c
Holds-value h e = record {
  buf = h.buf;
  others = h.others;
  stands = h.stands;
  locked = h.locked;
  valid = h.valid;
  block = h.block;
  bytes = h.bytes ∙ e;
}
