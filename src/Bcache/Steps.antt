-- ===== src/Bcache/Steps.antt =====
-- What the kernel does with the buffers, step by step: they hold what was last stored.
use operating_systems_cs.Base.{
  ℕ, zero, suc, ◌^◌, ◌<◌, ◌≤◌, ◌≡◌, ◌≢◌, refl, false, some, List, [], ◌∷◌, arith, not_both, update,
}
use operating_systems_cs.Base.Lists.{length}
use operating_systems_cs.Bcache.{Buf, bget, binit_from}
use operating_systems_cs.Bcache.Altering.{
  lock_and_fill-Locks, store_bytes-Stores, bwrite-Stores, release-AllOf,
}
use operating_systems_cs.Bcache.Changes.{AllOf, Unique}
use operating_systems_cs.Bcache.Coherent.{Shows, Settled, Represents, bget-Represents}
use operating_systems_cs.Bcache.Distinct.{binit_from-Distinct}
use operating_systems_cs.Bcache.Io.{
  Cache, reads, sleeps, lock_and_fill, bread, bwrite, store_bytes, release,
}
use operating_systems_cs.Bcache.Reading.{
  bread_lem, bread-reads_bget, bread-sleeps_bget, lock_and_fill-Represents,
}
use operating_systems_cs.Bcache.Release.{release_lem}
use operating_systems_cs.Bcache.Tracking.{
  bget-Serves, Altered-Serves, Altered-lock, holder-Holds, waiter-block,
}
use operating_systems_cs.Bcache.Users.{
  User, waiter, holder, users, holders, AllSuit, Serves, Without, first, length-Without,
}
use operating_systems_cs.Bcache.Writing.{bwrite_lem, store_bytes_lem}
use operating_systems_cs.Fs.{Block}

-- Steps from one content, cache and list of users to the next. A process may read a block, or sleep
-- for its buffer and be woken later; one that holds a buffer may change it and mark it dirty, write
-- it, or release it. Fewer than 2^32 processes use the buffers at a time.
pub data Steps : (ℕ → Block) → Cache → List User → (ℕ → Block) → Cache → List User → Type 0 where
  stop : {f : ℕ → Block} {c : Cache} {us : List User} → Steps f c us f c us
  read :
      {f g : ℕ → Block} {c d e : Cache} {us vs : List User} (n i : ℕ)
      → suc (length us) < 2 ^ 32
      → bread 1 n c ≡ reads i d
      → Steps f d (holder i n ∷ us) g e vs
      → Steps f c us g e vs
  sleep :
      {f g : ℕ → Block} {c d e : Cache} {us vs : List User} (n i : ℕ)
      → suc (length us) < 2 ^ 32
      → bread 1 n c ≡ sleeps i d
      → Steps f d (waiter i n ∷ us) g e vs
      → Steps f c us g e vs
  wake :
      {f g : ℕ → Block} {c d e : Cache} {us rest vs : List User} (n i j : ℕ)
      → Without (waiter i n) us rest
      → lock_and_fill i c ≡ reads j d
      → Steps f d (holder i n ∷ rest) g e vs
      → Steps f c us g e vs
  change :
      {f g : ℕ → Block} {c d e : Cache} {us rest vs : List User} (i n : ℕ) (w : Block)
      → Without (holder i n) us rest
      → store_bytes i w c ≡ some d
      → Steps (update f n w) d us g e vs
      → Steps f c us g e vs
  write :
      {f g : ℕ → Block} {c d e : Cache} {us rest vs : List User} (i n : ℕ)
      → Without (holder i n) us rest
      → bwrite i c ≡ some d
      → Steps f d us g e vs
      → Steps f c us g e vs
  give :
      {f g : ℕ → Block} {c d e : Cache} {us rest vs : List User} (i n : ℕ)
      → Without (holder i n) us rest
      → release i c ≡ some d
      → Steps f d rest g e vs
      → Steps f c us g e vs

-- The buffers and the disk hold a content, and the buffers serve their users.
pub record IsSound (f : ℕ → Block) (c : Cache) (us : List User) : Type 0 where
  pub represents : Represents f c
  pub serves : AllOf (Serves us) c.bufs
  pub few : length us < 2 ^ 32

bget-Unique :
    {f : ℕ → Block} (n i : ℕ) (c : Cache) (bs : List Buf)
    → Represents f c
    → bget 1 n c.bufs ≡ some (i, bs)
    → Unique bs
bget-Unique n i c bs r e = (bget-Represents 1 n i c bs e r).0.unique

IsSound-read :
    {f : ℕ → Block} {us : List User} (n i : ℕ) (c d : Cache)
    → suc (length us) < 2 ^ 32
    → bread 1 n c ≡ reads i d
    → IsSound f c us
    → IsSound f d (holder i n ∷ us)
IsSound-read {f} {us} n i c d few e v =
    let (j, bs, got, filled) = bread-reads_bget n i c d e in
    let (same, l) = lock_and_fill-Locks j i (record c { bufs = bs }) d filled in
    let r = v.represents in
    let taken = bget-Serves us n j c.bufs bs got r.unique few v.serves in
    let kept = bread_lem n i c d r e in
    record {
      represents = kept.0;
      serves = rw same (
          Altered-lock n l.alters first l.free l.taken l.filled (bget-Unique n j c bs r got) taken);
      few = few;
    }

IsSound-sleep :
    {f : ℕ → Block} {us : List User} (n i : ℕ) (c d : Cache)
    → suc (length us) < 2 ^ 32
    → bread 1 n c ≡ sleeps i d
    → IsSound f c us
    → IsSound f d (waiter i n ∷ us)
IsSound-sleep {us = us} n i c d few e v =
    let (bs, got, same) = bread-sleeps_bget n i c d e in
    let r = v.represents in
    rw (← same) (record {
      represents = (bget-Represents 1 n i c bs got r).0;
      serves = bget-Serves us n i c.bufs bs got r.unique few v.serves;
      few = few;
    })

IsSound-wake :
    {f : ℕ → Block} {us rest : List User} (n i j : ℕ) (c d : Cache)
    → Without (waiter i n) us rest
    → lock_and_fill i c ≡ reads j d
    → IsSound f c us
    → IsSound f d (holder i n ∷ rest)
IsSound-wake n i j c d w e v =
    let l = (lock_and_fill-Locks i j c d e).1 in
    let r = v.represents in
    record {
      represents = (lock_and_fill-Represents n i j c d (waiter-block i n c w v.serves) r e).1;
      serves = Altered-lock n l.alters w l.free l.taken l.filled r.unique v.serves;
      few = omega (arith, length-Without w, v.few);
    }

IsSound-change :
    {f : ℕ → Block} {us rest : List User} (i n : ℕ) (w : Block) (c d : Cache)
    → Without (holder i n) us rest
    → store_bytes i w c ≡ some d
    → IsSound f c us
    → IsSound (update f n w) d us
IsSound-change {us = us} i n w c d h e v =
    let (b, others, there, s) = store_bytes-Stores i w c d e in
    let r = v.represents in
    let held = holder-Holds i n b others c h there v.serves in
    record {
      represents = (store_bytes_lem i n b.bytes w c d r held e).0;
      serves = Altered-Serves us s.alters s.locked r.unique v.serves;
      few = v.few;
    }

IsSound-write :
    {f : ℕ → Block} {us rest : List User} (i n : ℕ) (c d : Cache)
    → Without (holder i n) us rest
    → bwrite i c ≡ some d
    → IsSound f c us
    → IsSound f d us
IsSound-write {us = us} i n c d h e v =
    let (b, others, there, s) = bwrite-Stores i c d e in
    let r = v.represents in
    let held = holder-Holds i n b others c h there v.serves in
    record {
      represents = (bwrite_lem i n b.bytes c d r held e).0;
      serves = Altered-Serves us s.alters s.locked r.unique v.serves;
      few = v.few;
    }

IsSound-give :
    {f : ℕ → Block} {us rest : List User} (i n : ℕ) (c d : Cache)
    → Without (holder i n) us rest
    → release i c ≡ some d
    → IsSound f c us
    → IsSound f d rest
IsSound-give i n c d h e v = record {
  represents = release_lem i c d v.represents e;
  serves = release-AllOf i n c d h e v.represents.unique v.few v.serves;
  few = omega (arith, length-Without h, v.few);
}

-- If the buffers and the disk hold a content and the buffers serve their users, as after binit with
-- no users, then after any steps in which fewer than 2^32 processes at a time read blocks of device
-- 1, sleep for a buffer and are woken, and change a buffer that they hold and mark it dirty, write
-- it, or release it, they hold that content with the blocks that were changed, and serve the users
-- that are left: the blocks stand in one buffer at most, valid buffers have the content of their
-- blocks, and the disk has it where no buffer is dirty; each refcnt is the number of the users of
-- the buffer, which has the block that each of them asked for; and a buffer is locked exactly if one
-- process holds it, is valid then, and is never held by two.
pub Steps-IsSound :
    {f g : ℕ → Block} {c d : Cache} {us vs : List User}
    → Steps f c us g d vs
    → IsSound f c us
    → IsSound g d vs
Steps-IsSound stop v = v
Steps-IsSound (read {c = c} {d = d} n i few e rest) v =
    Steps-IsSound rest (IsSound-read n i c d few e v)
Steps-IsSound (sleep {c = c} {d = d} n i few e rest) v =
    Steps-IsSound rest (IsSound-sleep n i c d few e v)
Steps-IsSound (wake {c = c} {d = d} n i j w e rest) v =
    Steps-IsSound rest (IsSound-wake n i j c d w e v)
Steps-IsSound (change {c = c} {d = d} i n w h e rest) v =
    Steps-IsSound rest (IsSound-change i n w c d h e v)
Steps-IsSound (write {c = c} {d = d} i n h e rest) v =
    Steps-IsSound rest (IsSound-write i n c d h e v)
Steps-IsSound (give {c = c} {d = d} i n h e rest) v =
    Steps-IsSound rest (IsSound-give i n c d h e v)

binit-ids : (n m : ℕ) → n ≤ m → AllOf (λ b. b.id ≢ m) (binit_from n)
unfolding AllOf binit_from
binit-ids zero m h = tt
binit-ids (suc n) m h = ((λ e. omega arith), binit-ids n m (omega arith))

binit-Unique : (n : ℕ) → Unique (binit_from n)
unfolding Unique binit_from
binit-Unique zero = tt
binit-Unique (suc n) = (binit-ids n n (omega arith), binit-Unique n)

binit-AllOf :
    (P : Buf → Type 0) (n : ℕ)
    → ((b : Buf) → b.dev ≡ 0 → b.dirty ≡ false → P b)
    → AllOf P (binit_from n)
unfolding AllOf binit_from
binit-AllOf P zero h = tt
binit-AllOf P (suc n) h = (h _ refl refl, binit-AllOf P n h)

-- The buffers as `binit` leaves them, over any disk.
pub binit-Represents :
    (n disksize : ℕ) (disk : ℕ → Block)
    → Represents disk (record { bufs = binit_from n; disk = disk; disksize = disksize })
binit-Represents n disksize disk = record {
  distinct = binit_from-Distinct n;
  unique = binit-Unique n;
  shown = binit-AllOf (Shows disk) n (λ b none clean one v. absurd (omega arith));
  settled = binit-AllOf Settled n (λ b none clean d. absurd (not_both d clean));
  stored = λ m all. refl;
}

binit-Serves : (n : ℕ) → AllOf (Serves []) (binit_from n)
unfolding AllOf binit_from users holders AllSuit
binit-Serves zero = tt
binit-Serves (suc n) = (record { counted = refl; locks = refl; suits = tt }, binit-Serves n)

-- And with no users.
pub binit-IsSound :
    (n disksize : ℕ) (disk : ℕ → Block)
    → IsSound disk (record { bufs = binit_from n; disk = disk; disksize = disksize }) []
binit-IsSound n disksize disk = record {
  represents = binit-Represents n disksize disk;
  serves = binit-Serves n;
  few = omega arith;
}
