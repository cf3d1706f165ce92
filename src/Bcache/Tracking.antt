-- ===== src/Bcache/Tracking.antt =====
-- What the calls of bio.c do to the buffers that processes use.
use operating_systems_cs.Base.{
  ℕ, suc, ◌+◌, ◌-◌, ◌^◌, ◌%◌, ◌<◌, ◌≤◌, ◌≡◌, ◌≢◌, refl, sym, ap, ◌∙◌, inl, inr, Bool, true, false,
  some, List, ◌∷◌, arith, ◌==◌, ==_refl, Bool-cases,
}
use operating_systems_cs.Base.Lists.{length}
use operating_systems_cs.Bcache.{Buf, is_block, refer, recycle, bget, take_out}
use operating_systems_cs.Bcache.Changes.{
  AllOf, Unique, Changed, AllOf-old, take_cached-Changed, recycle_last-Changed, put_back-Changed,
}
use operating_systems_cs.Bcache.Coherent.{Holds, bget-cases}
use operating_systems_cs.Bcache.Io.{Cache}
use operating_systems_cs.Bcache.Users.{
  User, waiter, holder, bit, users, holders, AllSuit, Serves, Without, users-Without,
  holders-Without, AllSuit-Without, users-le-length, AllSuit-unused, AllSuit-same, Serves-cons,
  Serves-drop, AllOf-Changed,
}

bit_le : (b : Bool) → bit b ≤ 1
bit_le b = ground arith

-- One more process uses a buffer that has its block.
refer-Serves :
    (us : List User) (i n : ℕ) (b : Buf)
    → b.id ≡ i
    → is_block 1 n b ≡ true
    → suc (length us) < 2 ^ 32
    → Serves us b
    → Serves (waiter i n ∷ us) (refer b)
unfolding users holders AllSuit
refer-Serves us i n b id block few s =
    let test : (i == b.id) ≡ true = ap (λ k. i == k) id ∙ ==_refl i in
    record {
      counted = rw test (omega (arith, s.counted, users-le-length b.id us));
      locks = rw test (omega (arith, s.locks));
      suits =
          ((λ e. (block, λ h. cc)), AllSuit-same b (refer b) us refl refl refl (λ v. v) s.suits);
    }

-- A buffer that nobody uses is taken for the block.
recycle-Serves :
    (us : List User) (i n : ℕ) (b : Buf)
    → b.id ≡ i
    → b.refcnt ≡ 0
    → Serves us b
    → Serves (waiter i n ∷ us) (recycle 1 n b)
unfolding users holders AllSuit
recycle-Serves us i n b id unused s =
    let test : (i == b.id) ≡ true = ap (λ k. i == k) id ∙ ==_refl i in
    let nobody : users b.id us ≡ 0 = sym s.counted ∙ unused in
    record {
      counted = rw test (omega (arith, nobody));
      locks = rw test (omega (arith, s.locks));
      suits =
          ((λ e. (ground (arith, ==_refl n), λ h. cc)), AllSuit-unused (recycle 1 n b) us nobody);
    }

-- `bget` takes no buffer away from the processes that use it.
pub bget-Serves :
    (us : List User) (n i : ℕ) (bs cs : List Buf)
    → bget 1 n bs ≡ some (i, cs)
    → Unique bs
    → suc (length us) < 2 ^ 32
    → AllOf (Serves us) bs
    → AllOf (Serves (waiter i n ∷ us)) cs
bget-Serves us n i bs cs e unique few all = elim (bget-cases 1 n i bs cs e) [
  | inl got ↦
      let (b, ch, id, block) = take_cached-Changed 1 n i bs cs got in
      AllOf-Changed (Serves us) (Serves (waiter i n ∷ us)) ch unique
        (λ x ne. Serves-cons (waiter i n) us x (λ same. ne (same ∙ sym id)))
        (refer-Serves us i n b id block few (AllOf-old (Serves us) ch all)) all
  | inr got ↦
      let (b, ch, id, clean, unused) = recycle_last-Changed 1 n i bs cs got in
      AllOf-Changed (Serves us) (Serves (waiter i n ∷ us)) ch unique
        (λ x ne. Serves-cons (waiter i n) us x (λ same. ne (same ∙ sym id)))
        (recycle-Serves us i n b id unused (AllOf-old (Serves us) ch all)) all
]

-- Buffer `i` changes, and keeps its number, block and count.
pub record Altered (i : ℕ) (bs cs : List Buf) : Type 0 where
  pub before : Buf
  pub after : Buf
  pub changed : Changed before after bs cs
  pub number : before.id ≡ i
  pub id : after.id ≡ before.id
  pub dev : after.dev ≡ before.dev
  pub blockno : after.blockno ≡ before.blockno
  pub refcnt : after.refcnt ≡ before.refcnt
  pub valid : before.valid ≡ true → after.valid ≡ true

-- Its lock is left alone.
pub Altered-Serves :
    {i : ℕ} {bs cs : List Buf} (us : List User) (a : Altered i bs cs)
    → a.after.locked ≡ a.before.locked
    → Unique bs
    → AllOf (Serves us) bs
    → AllOf (Serves us) cs
Altered-Serves us a locked unique all =
    let s = AllOf-old (Serves us) a.changed all in
    AllOf-Changed (Serves us) (Serves us) a.changed unique (λ x ne h. h)
      (record {
        counted = a.refcnt ∙ s.counted ∙ ap (λ j. users j us) (sym a.id);
        locks = ap (λ j. holders j us) a.id ∙ s.locks ∙ ap bit (sym locked);
        suits = AllSuit-same a.before a.after us a.id a.dev a.blockno a.valid s.suits;
      })
      all

-- A process that waited has its lock.
lock-Serves :
    {us vs : List User} (i n : ℕ) (b c : Buf)
    → Without (waiter i n) us vs
    → b.id ≡ i
    → (c.id ≡ b.id) × (c.dev ≡ b.dev) × (c.blockno ≡ b.blockno) × (c.refcnt ≡ b.refcnt)
    → b.locked ≡ false
    → c.locked ≡ true
    → c.valid ≡ true
    → Serves us b
    → Serves (holder i n ∷ vs) c
unfolding users holders AllSuit
lock-Serves {us} {vs} i n b c w number (id, dev, blockno, refcnt) free taken valid s =
    let test : (i == c.id) ≡ true = ap (λ k. i == k) (id ∙ number) ∙ ==_refl i in
    let (suit, rest) =
      AllSuit-Without c w (AllSuit-same b c us id dev blockno (λ _. valid) s.suits) in
    let none_held : holders c.id us ≡ 0 = ap (λ j. holders j us) id ∙ s.locks ∙ ap bit free in
    let fewer = rw test at (holders-Without c.id w) in
    record {
      counted = refcnt ∙ s.counted ∙ ap (λ j. users j us) (sym id) ∙ users-Without c.id w;
      locks = rw (test, taken) (omega (arith, none_held, fewer));
      suits = ((λ e. ((suit e).0, λ _. valid)), rest);
    }

pub Altered-lock :
    {i : ℕ} {bs cs : List Buf} {us vs : List User} (n : ℕ) (a : Altered i bs cs)
    → Without (waiter i n) us vs
    → a.before.locked ≡ false
    → a.after.locked ≡ true
    → a.after.valid ≡ true
    → Unique bs
    → AllOf (Serves us) bs
    → AllOf (Serves (holder i n ∷ vs)) cs
Altered-lock {i} {us = us} {vs = vs} n a w free taken valid unique all =
    AllOf-Changed (Serves us) (Serves (holder i n ∷ vs)) a.changed unique
      (λ x ne h.
        let other : x.id ≢ i = λ same. ne (same ∙ sym a.number) in
        Serves-cons (holder i n) vs x other (Serves-drop x w other h))
      (lock-Serves i n a.before a.after w a.number (a.id, a.dev, a.blockno, a.refcnt) free taken
        valid (AllOf-old (Serves us) a.changed all))
      all

-- The holder gives the buffer back.
pub release-Serves :
    {us vs : List User} (i n : ℕ) (b : Buf)
    → Without (holder i n) us vs
    → b.id ≡ i
    → length us < 2 ^ 32
    → Serves us b
    → Serves vs (record b { locked = false; refcnt = (b.refcnt + 2 ^ 32 - 1) % 2 ^ 32 })
release-Serves {us} {vs} i n b w number few s =
    let test : (i == b.id) ≡ true = ap (λ k. i == k) number ∙ ==_refl i in
    let fewer = rw test at (users-Without b.id w) in
    let unlocks = rw test at (holders-Without b.id w) in
    record {
      counted = omega (arith, s.counted, fewer, users-le-length b.id us);
      locks = omega (arith, s.locks, unlocks, bit_le b.locked);
      suits =
          AllSuit-same b (record b { locked = false; refcnt = (b.refcnt + 2 ^ 32 - 1) % 2 ^ 32 }) vs
            refl refl refl (λ v. v) (AllSuit-Without b w s.suits).1;
    }

-- A process that holds a buffer of the cache has its block there, valid and locked.
pub holder-Holds :
    {us vs : List User} (i n : ℕ) (b : Buf) (others : List Buf) (c : Cache)
    → Without (holder i n) us vs
    → take_out i c.bufs ≡ some (b, others)
    → AllOf (Serves us) c.bufs
    → Holds i n b.bytes c
holder-Holds {us} i n b others c w e all =
    let (ch, number) = put_back-Changed i b b c.bufs others e refl in
    let s = AllOf-old (Serves us) ch all in
    let test : (i == b.id) ≡ true = ap (λ k. i == k) number ∙ ==_refl i in
    let held = rw test at (holders-Without b.id w) in
    let (block, valid) = (AllSuit-Without b w s.suits).0 (sym number) in
    record {
      buf = b;
      others = others;
      stands = e;
      locked = elim (Bool-cases b.locked) [
        | inl locked ↦ locked
        | inr free ↦ absurd (omega (arith, held, s.locks, ap bit free))
      ];
      valid = valid refl;
      block = block;
      bytes = refl;
    }

-- The buffer that a process waits for still has its block.
pub waiter-block :
    {us vs : List User} (i n : ℕ) (c : Cache)
    → Without (waiter i n) us vs
    → AllOf (Serves us) c.bufs
    → (b : Buf) (others : List Buf) → take_out i c.bufs ≡ some (b, others)
    → is_block 1 n b ≡ true
waiter-block {us} i n c w all b others e =
    let (ch, number) = put_back-Changed i b b c.bufs others e refl in
    ((AllSuit-Without b w (AllOf-old (Serves us) ch all).suits).0 (sym number)).0
