-- ===== src/Bcache/Release.antt =====
-- `brelse` keeps the content, also where it moves the buffer to the front of the list.
use operating_systems_cs.Base.{
  ℕ, ◌+◌, ◌-◌, ◌^◌, ◌%◌, ◌≡◌, refl, sym, ◌≢◌, ◌∙◌, ap, ◌⊎◌, inl, inr, Bool, true, false, not,
  Option, none, some, List, [], ◌∷◌, arith, ◌==◌, ==_refl, Bool-cases, Option-cases, some-ne-none,
  if◌then◌else◌,
}
use operating_systems_cs.Bcache.{Buf, is_block, take_out, put_back, brelse}
use operating_systems_cs.Bcache.Apart.{is_block-fields}
use operating_systems_cs.Bcache.Changes.{AllOf, Unique, AllOf-old, put_back-Changed}
use operating_systems_cs.Bcache.Distinct.{Distinct, Absent}
use operating_systems_cs.Bcache.Io.{Cache, put_in, release}
use operating_systems_cs.Fs.{Block}
use operating_systems_cs.Bcache.Coherent.{Shows, Settled, Clean, Represents, put_in-Represents}

-- `cs` is `bs` without `b`.
pub data Taken (b : Buf) : List Buf → List Buf → Type 0 where
  here : {bs : List Buf} → Taken b (b ∷ bs) bs
  there : {x : Buf} {bs cs : List Buf} → Taken b bs cs → Taken b (x ∷ bs) (x ∷ cs)

take_inj :
    {b c : Buf} {bs cs : List Buf}
    → ◌≡◌ {A = Option (Buf × List Buf)} (some (b, bs)) (some (c, cs))
    → (b ≡ c) × (bs ≡ cs)
take_inj e = (cc, cc)

pub take_out-Taken :
    (i : ℕ) (b : Buf) (bs cs : List Buf) → take_out i bs ≡ some (b, cs) → Taken b bs cs
unfolding take_out
take_out-Taken i b [] cs e = cc
take_out-Taken i b (x ∷ bs) cs e = elim (Bool-cases (x.id == i)) [
  | inl found ↦ let (same, rest) = take_inj (rw found at e) in rw (same, rest) Taken.here
  | inr away ↦ elim (Option-cases (take_out i bs)) [
    | inl missed ↦ absurd (some-ne-none e (rw (take_out, away, missed)))
    | inr ((y, ds), got) ↦
        let (same, rest) = take_inj (rw (away, got) at e) in
        rw (← rest) (Taken.there (take_out-Taken i b bs ds (got ∙ ap (λ z. some (z, ds)) same)))
  ]
]

pub AllOf-take :
    (P : Buf → Type 0) {b : Buf} {bs cs : List Buf} → Taken b bs cs → AllOf P bs → P b × AllOf P cs
unfolding AllOf
AllOf-take P here (p, ps) = (p, ps)
AllOf-take P (there t) (p, ps) = let (q, qs) = AllOf-take P t ps in (q, (p, qs))

AllOf-put :
    (P : Buf → Type 0) {b : Buf} {bs cs : List Buf} → Taken b bs cs → P b → AllOf P cs → AllOf P bs
unfolding AllOf
AllOf-put P here p ps = (p, ps)
AllOf-put P (there t) p (q, qs) = (q, AllOf-put P t p qs)

pub Unique-take :
    {b : Buf} {bs cs : List Buf}
    → Taken b bs cs
    → Unique bs
    → AllOf (λ d. d.id ≢ b.id) cs × Unique cs
unfolding Unique AllOf
Unique-take here u = u
Unique-take (there {x = x} t) (n, u) =
    let (apart, rest) = AllOf-take (λ d. d.id ≢ x.id) t n in
    let (alone, unique) = Unique-take t u in (((λ e. apart (sym e)), alone), (rest, unique))

Absent-take :
    (dev blockno : ℕ) {b : Buf} {bs cs : List Buf}
    → Taken b bs cs
    → Absent dev blockno bs
    → (is_block dev blockno b ≡ false) × Absent dev blockno cs
unfolding Absent
Absent-take dev blockno here a = a
Absent-take dev blockno (there t) (a, h) =
    let (b, rest) = Absent-take dev blockno t h in (b, (a, rest))

block_of : (b : Buf) → is_block b.dev b.blockno b ≡ true
block_of b = ground (arith, ==_refl b.dev, ==_refl b.blockno)

swap_block : (b x : Buf) → is_block x.dev x.blockno b ≡ false → is_block b.dev b.blockno x ≡ false
swap_block b x h = ground arith

Distinct-take :
    {b : Buf} {bs cs : List Buf}
    → Taken b bs cs
    → Distinct bs
    → ((b.dev ≡ 0) ⊎ Absent b.dev b.blockno cs) × Distinct cs
unfolding Distinct Absent
Distinct-take here h = h
Distinct-take {b} (there {x = x} t) (inl z, h) =
    let (alone, distinct) = Distinct-take t h in
    (
      elim alone [
        | inl y ↦ inl y
        | inr k ↦ elim (Bool-cases (is_block b.dev b.blockno x)) [
          | inl same ↦ inl (sym (is_block-fields b.dev b.blockno x same).0 ∙ z)
          | inr away ↦ inr (away, k)
        ]
      ],
      (inl z, distinct),
    )
Distinct-take {b} (there {x = x} t) (inr a, h) =
    let (apart, rest) = Absent-take x.dev x.blockno t a in
    let (alone, distinct) = Distinct-take t h in
    (elim alone [ inl z ↦ inl z | inr k ↦ inr (swap_block b x apart, k) ], (inr rest, distinct))

front-Represents :
    {content : ℕ → Block} (i : ℕ) (b : Buf) (others : List Buf) (refcnt : ℕ) (c : Cache)
    → take_out i c.bufs ≡ some (b, others)
    → Represents content c
    → Represents content (record c { bufs = record b { locked = false; refcnt = refcnt } ∷ others })
unfolding AllOf Unique Distinct
front-Represents {content} i b others refcnt c e r =
    let t = take_out-Taken i b c.bufs others e in
    record {
      distinct = Distinct-take t r.distinct;
      unique = Unique-take t r.unique;
      shown = AllOf-take (Shows content) t r.shown;
      settled = AllOf-take Settled t r.settled;
      stored = λ m all. r.stored m (AllOf-put (Clean m) t all.0 all.1);
    }

release_result :
    (g t : Bool) (xs ys : List Buf) (c c' : Cache)
    → elim (if g then none else if t then some xs else some ys) [
      | none ↦ none
      | some bs ↦ some (record c { bufs = bs })
    ]
      ≡ some c'
    → (c' ≡ record c { bufs = xs }) ⊎ (c' ≡ record c { bufs = ys })
release_result true t xs ys c c' e = cc
release_result false true xs ys c c' e = inl cc
release_result false false xs ys c c' e = inr cc

pub release-some :
    (i : ℕ) (b : Buf) (others : List Buf) (c c' : Cache)
    → take_out i c.bufs ≡ some (b, others)
    → release i c ≡ some c'
    → let b' = record b { locked = false; refcnt = (b.refcnt + 2 ^ 32 - 1) % 2 ^ 32 } in
      (c' ≡ record c { bufs = b' ∷ others }) ⊎ (c' ≡ put_in b' c)
unfolding release brelse
release-some i b others c c' e f =
    let b' = record b { locked = false; refcnt = (b.refcnt + 2 ^ 32 - 1) % 2 ^ 32 } in
    release_result (not b.locked) (b'.refcnt == 0) (b' ∷ others) (put_back b' c.bufs) c c'
      (rw (release, brelse, e) at f)

-- `brelse` keeps the content.
pub release_lem :
    {content : ℕ → Block} (i : ℕ) (c c' : Cache)
    → Represents content c
    → release i c ≡ some c'
    → Represents content c'
unfolding release brelse
release_lem {content} i c c' r e = elim (Option-cases (take_out i c.bufs)) [
  | inl missed ↦ absurd (some-ne-none e (rw (release, brelse, missed)))
  | inr ((b, others), got) ↦ elim (release-some i b others c c' got e) [
    | inl front ↦ rw front (front-Represents i b others _ c got r)
    | inr stays ↦
        let (ch, same) = put_back-Changed i b b c.bufs others got refl in
        rw stays (
          put_in-Represents i b _ others c got refl refl refl (AllOf-old (Shows content) ch r.shown)
            (AllOf-old Settled ch r.settled) (λ _ k. k) r)
  ]
]
