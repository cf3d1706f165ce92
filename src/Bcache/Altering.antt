-- ===== src/Bcache/Altering.antt =====
-- The buffer that `acquiresleep`, a store, `bwrite` or `brelse` changes, and that no other changes.
use operating_systems_cs.Base.{
  ℕ, ◌^◌, ◌<◌, ◌≡◌, ◌≢◌, refl, sym, ap, ◌∙◌, inl, inr, true, false, some, List, Bool-cases,
  Option-cases, some-ne-none, if◌then◌else◌,
}
use operating_systems_cs.Base.Lists.{length}
use operating_systems_cs.Bcache.{Buf, take_out, brelse}
use operating_systems_cs.Bcache.Changes.{AllOf, Unique, put_back-Changed}
use operating_systems_cs.Bcache.Io.{
  Cache, move_block, iderw, reads, sleeps, put_in, fill, lock_and_fill, bwrite, store_bytes,
  release,
}
use operating_systems_cs.Bcache.Reading.{
  iderw-some, reads_inj, not_reads, no_read, fill-valid, fill-stale,
}
use operating_systems_cs.Bcache.Release.{take_out-Taken, AllOf-take, Unique-take, release-some}
use operating_systems_cs.Bcache.Tracking.{Altered, release-Serves}
use operating_systems_cs.Bcache.Users.{
  User, holder, Serves, Without, Serves-drop, AllOf-apart, AllOf-Changed,
}
use operating_systems_cs.Bcache.Writing.{bwrite-some, store_bytes-some}
use operating_systems_cs.Fs.{Block}

-- The lock of buffer `i` was free; it is taken, and the buffer is valid.
pub record Locks (i : ℕ) (bs cs : List Buf) : Type 0 where
  pub alters : Altered i bs cs
  pub free : alters.before.locked ≡ false
  pub taken : alters.after.locked ≡ true
  pub filled : alters.after.valid ≡ true

put_in-Locks :
    (i j : ℕ) (b b' : Buf) (others : List Buf) (c d c' : Cache)
    → take_out j c.bufs ≡ some (b, others)
    → d.bufs ≡ c.bufs
    → (b'.id ≡ b.id) × (b'.dev ≡ b.dev) × (b'.blockno ≡ b.blockno) × (b'.refcnt ≡ b.refcnt)
    → b.locked ≡ false
    → (b'.locked ≡ true) × (b'.valid ≡ true)
    → reads b'.id (put_in b' d) ≡ reads i c'
    → (i ≡ j) × Locks j c.bufs c'.bufs
put_in-Locks i j b b' others c d c' e same (id, dev, blockno, refcnt) free (taken, valid) f =
    let (ch, number) = put_back-Changed j b b' c.bufs others e id in
    let (same_i, same_c) = reads_inj f in
    (
      sym same_i ∙ id ∙ number,
      rw (← same_c) (
          rw same (record {
            alters = record {
              before = b;
              after = b';
              changed = ch;
              number = number;
              id = id;
              dev = dev;
              blockno = blockno;
              refcnt = refcnt;
              valid = λ _. valid;
            };
            free = free;
            taken = taken;
            filled = valid;
          })),
    )

move_block-fields :
    (b : Buf) (c : Cache)
    → let (b', c') = move_block b c in
      (c'.bufs ≡ c.bufs)
      × (b'.id ≡ b.id)
      × (b'.dev ≡ b.dev)
      × (b'.blockno ≡ b.blockno)
      × (b'.refcnt ≡ b.refcnt)
      × (b'.locked ≡ b.locked)
      × (b'.valid ≡ true)
move_block-fields b c = elim (Bool-cases b.dirty) [
  | inl dirty ↦ rw dirty (refl, refl, refl, refl, refl, refl, refl)
  | inr clean ↦ rw clean (refl, refl, refl, refl, refl, refl, refl)
]

-- The end of `bread` takes the lock of the buffer whose number it was given.
pub lock_and_fill-Locks :
    (j i : ℕ) (c c' : Cache) → lock_and_fill j c ≡ reads i c' → (i ≡ j) × Locks j c.bufs c'.bufs
unfolding lock_and_fill
lock_and_fill-Locks j i c c' e = elim (Option-cases (take_out j c.bufs)) [
  | inl missed ↦ absurd (no_read (rw (lock_and_fill, missed) at e))
  | inr ((b, others), got) ↦ elim (Bool-cases b.locked) [
    | inl taken ↦ absurd (not_reads (rw (lock_and_fill, got, taken) at e))
    | inr free ↦
        let b1 = record b { locked = true } in
        let f : fill b1 c ≡ reads i c' =
          ap (λ t. if t then sleeps j c else fill b1 c) (sym free)
          ∙ (rw (lock_and_fill, got) at e) in
        elim (Bool-cases b.valid) [
          | inl valid ↦
              put_in-Locks i j b b1 others c c c' got refl (refl, refl, refl, refl) free
                (refl, valid) (sym (fill-valid b1 c valid) ∙ f)
          | inr stale ↦ elim (Option-cases (iderw b1 c)) [
            | inl panicked ↦ absurd (no_read (sym (fill-stale b1 c _ stale panicked) ∙ f))
            | inr (r, done) ↦
                let (bufs, id, dev, blockno, refcnt, locked, valid) = move_block-fields b1 c in
                put_in-Locks i j b (move_block b1 c).0 others c (move_block b1 c).1 c' got bufs
                  (id, dev, blockno, refcnt) free (locked, valid)
                  (sym (
                      fill-stale b1 c (some (move_block b1 c)) stale
                        (done ∙ sym (iderw-some b1 c r done)))
                    ∙ f)
          ]
        ]
  ]
]

-- A buffer that a process changes while it holds it.
pub record Stores (i : ℕ) (bs cs : List Buf) : Type 0 where
  pub alters : Altered i bs cs
  pub locked : alters.after.locked ≡ alters.before.locked

put_in-Stores :
    (i : ℕ) (b b' : Buf) (others : List Buf) (c : Cache)
    → take_out i c.bufs ≡ some (b, others)
    → (b'.id ≡ b.id) × (b'.dev ≡ b.dev) × (b'.blockno ≡ b.blockno) × (b'.refcnt ≡ b.refcnt)
    → b'.locked ≡ b.locked
    → (b.valid ≡ true → b'.valid ≡ true)
    → Stores i c.bufs (put_in b' c).bufs
put_in-Stores i b b' others c e (id, dev, blockno, refcnt) locked valid =
    let (ch, number) = put_back-Changed i b b' c.bufs others e id in
    record {
      alters = record {
        before = b;
        after = b';
        changed = ch;
        number = number;
        id = id;
        dev = dev;
        blockno = blockno;
        refcnt = refcnt;
        valid = valid;
      };
      locked = locked;
    }

pub store_bytes-Stores :
    (i : ℕ) (w : Block) (c c' : Cache)
    → store_bytes i w c ≡ some c'
    → (b : Buf) × (others : List Buf) × (take_out i c.bufs ≡ some (b, others))
      × Stores i c.bufs c'.bufs
unfolding store_bytes
store_bytes-Stores i w c c' e = elim (Option-cases (take_out i c.bufs)) [
  | inl missed ↦ absurd (some-ne-none e (rw (store_bytes, missed)))
  | inr ((b, others), got) ↦
      let b' = record b { bytes = w; dirty = true } in
      (
        b,
        others,
        got,
        rw (store_bytes-some i w b others c c' got e)
            (put_in-Stores i b b' others c got (refl, refl, refl, refl) refl (λ v. v)),
      )
]

pub bwrite-Stores :
    (i : ℕ) (c c' : Cache)
    → bwrite i c ≡ some c'
    → (b : Buf) × (others : List Buf) × (take_out i c.bufs ≡ some (b, others))
      × Stores i c.bufs c'.bufs
unfolding bwrite
bwrite-Stores i c c' e = elim (Option-cases (take_out i c.bufs)) [
  | inl missed ↦ absurd (some-ne-none e (rw (bwrite, missed)))
  | inr ((b, others), got) ↦
      let b' = record b { dirty = false; valid = true } in
      (
        b,
        others,
        got,
        rw (bwrite-some i b others c c' got e)
            (put_in-Stores i b b' others c got (refl, refl, refl, refl) refl (λ _. refl)),
      )
]

-- `brelse` by a holder, also where it moves the buffer to the front of the list.
pub release-AllOf :
    {us vs : List User} (i n : ℕ) (c c' : Cache)
    → Without (holder i n) us vs
    → release i c ≡ some c'
    → Unique c.bufs
    → length us < 2 ^ 32
    → AllOf (Serves us) c.bufs
    → AllOf (Serves vs) c'.bufs
unfolding release AllOf brelse
release-AllOf {us} {vs} i n c c' w e unique few all = elim (Option-cases (take_out i c.bufs)) [
  | inl missed ↦ absurd (some-ne-none e (rw (release, brelse, missed)))
  | inr ((b, others), got) ↦
      let (ch, number) = put_back-Changed i b _ c.bufs others got refl in
      let other : (x : Buf) → x.id ≢ b.id → Serves us x → Serves vs x =
        λ x ne. Serves-drop x w (λ same. ne (same ∙ sym number)) in
      let t = take_out-Taken i b c.bufs others got in
      let (s, rest) = AllOf-take (Serves us) t all in
      let given = release-Serves i n b w number few s in
      elim (release-some i b others c c' got e) [
        | inl front ↦ rw front (
          given,
          AllOf-apart (Serves us) (Serves vs) b.id others (Unique-take t unique).0 other rest,
        )
        | inr stays ↦ rw stays (AllOf-Changed (Serves us) (Serves vs) ch unique other given all)
      ]
]
