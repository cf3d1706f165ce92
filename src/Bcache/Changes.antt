-- ===== src/Bcache/Changes.antt =====
-- Changes of one buffer of the cache, which is what `bget`, `put_back` and `take_out` come to.
use operating_systems_cs.Base.{
  ℕ, ◌≡◌, refl, sym, ◌≢◌, inl, inr, ◌∙◌, ap, Bool, true, false, not, ◌&&◌, Option, none, some, List,
  [], ◌∷◌, arith, ◌==◌, ==_refl, ==_sound, ==_ne, Bool-cases, Option-cases,
}
use operating_systems_cs.Bcache.{
  Buf, is_block, refer, recycle, take_cached, recycle_last, take_out, put_back,
}

unfoldable pub AllOf : (Buf → Type 0) → List Buf → Type 0
AllOf P [] = Unit
AllOf P (b ∷ bs) = P b × AllOf P bs

-- No two buffers have one number.
unfoldable pub Unique : List Buf → Type 0
Unique [] = Unit
Unique (b ∷ bs) = AllOf (λ c. c.id ≢ b.id) bs × Unique bs

-- `cs` is `bs` with `c` in the place of `b`.
pub data Changed (b c : Buf) : List Buf → List Buf → Type 0 where
  here : {bs : List Buf} → Changed b c (b ∷ bs) (c ∷ bs)
  there : {x : Buf} {bs cs : List Buf} → Changed b c bs cs → Changed b c (x ∷ bs) (x ∷ cs)

pub AllOf-to :
    (P : Buf → Type 0) {b c : Buf} {bs cs : List Buf}
    → Changed b c bs cs
    → P c
    → AllOf P bs
    → AllOf P cs
unfolding AllOf
AllOf-to P here p (q, all) = (p, all)
AllOf-to P (there ch) p (q, all) = (q, AllOf-to P ch p all)

pub AllOf-from :
    (P : Buf → Type 0) {b c : Buf} {bs cs : List Buf}
    → Changed b c bs cs
    → P b
    → AllOf P cs
    → AllOf P bs
unfolding AllOf
AllOf-from P here p (q, all) = (p, all)
AllOf-from P (there ch) p (q, all) = (q, AllOf-from P ch p all)

pub AllOf-old :
    (P : Buf → Type 0) {b c : Buf} {bs cs : List Buf} → Changed b c bs cs → AllOf P bs → P b
unfolding AllOf
AllOf-old P here (q, all) = q
AllOf-old P (there ch) (q, all) = AllOf-old P ch all

pub AllOf-new :
    (P : Buf → Type 0) {b c : Buf} {bs cs : List Buf} → Changed b c bs cs → AllOf P cs → P c
unfolding AllOf
AllOf-new P here (q, all) = q
AllOf-new P (there ch) (q, all) = AllOf-new P ch all

pub Unique-Changed :
    {b c : Buf} {bs cs : List Buf} → Changed b c bs cs → c.id ≡ b.id → Unique bs → Unique cs
unfolding Unique AllOf
Unique-Changed here e (n, u) = (rw e n, u)
Unique-Changed (there {x = x} ch) e (n, u) = (
  AllOf-to (λ d. d.id ≢ x.id) ch (rw e (AllOf-old (λ d. d.id ≢ x.id) ch n)) n,
  Unique-Changed ch e u,
)

cons_inj :
    {i j : ℕ} {bs cs : List Buf}
    → ◌≡◌ {A = Option (ℕ × List Buf)} (some (i, bs)) (some (j, cs))
    → (i ≡ j) × (bs ≡ cs)
cons_inj e = (cc, cc)

no_result : {i : ℕ} {cs : List Buf} → ◌≡◌ {A = Option (ℕ × List Buf)} none (some (i, cs)) → ⊥
no_result e = cc

and_clean : (b d : Bool) → (b && not d) ≡ true → d ≡ false
and_clean true true h = cc
and_clean true false h = refl
and_clean false d h = cc

buf_inj :
    {b c : Buf} {bs cs : List Buf}
    → ◌≡◌ {A = Option (Buf × List Buf)} (some (b, bs)) (some (c, cs))
    → ◌≡◌ {A = Buf × List Buf} (b, bs) (c, cs)
buf_inj e = cc

no_buf : {b : Buf} {cs : List Buf} → ◌≡◌ {A = Option (Buf × List Buf)} none (some (b, cs)) → ⊥
no_buf e = cc

pub take_cached-Changed :
    (dev blockno i : ℕ) (bs cs : List Buf)
    → take_cached dev blockno bs ≡ some (i, cs)
    → (b : Buf) × Changed b (refer b) bs cs × (b.id ≡ i) × (is_block dev blockno b ≡ true)
unfolding take_cached
take_cached-Changed dev blockno i [] cs e = cc
take_cached-Changed dev blockno i (b ∷ bs) cs e = elim (Bool-cases (is_block dev blockno b)) [
  | inl found ↦
      let (same_i, same) = cons_inj (rw found at e) in (b, rw (← same) Changed.here, same_i, found)
  | inr away ↦ elim (Option-cases (take_cached dev blockno bs)) [
    | inl missed ↦ absurd (no_result (rw (away, missed) at e))
    | inr ((j, ds), got) ↦
        let (same_i, same) = cons_inj (rw (away, got) at e) in
        let (c, ch, id, block) = take_cached-Changed dev blockno j bs ds got in
        (c, rw (← same) (Changed.there ch), id ∙ same_i, block)
  ]
]

pub recycle_last-Changed :
    (dev blockno i : ℕ) (bs cs : List Buf)
    → recycle_last dev blockno bs ≡ some (i, cs)
    → (b : Buf) × Changed b (recycle dev blockno b) bs cs
      × (b.id ≡ i)
      × (b.dirty ≡ false)
      × (b.refcnt ≡ 0)
unfolding recycle_last
recycle_last-Changed dev blockno i [] cs e = cc
recycle_last-Changed dev blockno i (b ∷ bs) cs e =
    elim (Option-cases (recycle_last dev blockno bs)) [
      | inr ((j, ds), got) ↦
          let (same_i, same) = cons_inj (rw got at e) in
          let (c, ch, id, clean, unused) = recycle_last-Changed dev blockno j bs ds got in
          (c, rw (← same) (Changed.there ch), id ∙ same_i, clean, unused)
      | inl missed ↦ elim (Bool-cases ((b.refcnt == 0) && not b.dirty)) [
        | inl unused ↦
            let (same_i, same) = cons_inj (rw (missed, unused) at e) in
            (
              b,
              rw (← same) Changed.here,
              same_i,
              and_clean (b.refcnt == 0) b.dirty unused,
              ground arith,
            )
        | inr used ↦ absurd (no_result (rw (missed, used) at e))
      ]
    ]

pub put_back-Changed :
    (i : ℕ) (b c : Buf) (bs others : List Buf)
    → take_out i bs ≡ some (b, others)
    → c.id ≡ b.id
    → Changed b c bs (put_back c bs) × (b.id ≡ i)
unfolding take_out put_back
put_back-Changed i b c [] others e same = cc
put_back-Changed i b c (x ∷ bs) others e same = elim (Bool-cases (x.id == i)) [
  | inl found ↦
      let is_b : x ≡ b = ap (λ r. r.0) (buf_inj (rw found at e)) in
      let test : (x.id == c.id) ≡ true = rw (same ∙ ap (λ r. r.id) (sym is_b)) (==_refl x.id) in
      (rw (test, is_b) Changed.here, rw is_b at (==_sound x.id i found))
  | inr away ↦ elim (Option-cases (take_out i bs)) [
    | inl missed ↦ absurd (no_buf (rw (away, missed) at e))
    | inr ((y, ds), got) ↦
        let is_b : y ≡ b = ap (λ r. r.0) (buf_inj (rw (away, got) at e)) in
        let (ch, id) = put_back-Changed i b c bs ds (rw is_b at got) same in
        let test : (x.id == c.id) ≡ false = rw (same ∙ id) away in (rw test (Changed.there ch), id)
  ]
]

take_out_self :
    {b c : Buf} {bs cs : List Buf}
    → Changed b c bs cs
    → Unique cs
    → (others : List Buf) × (take_out c.id cs ≡ some (c, others))
unfolding take_out Unique
take_out_self {c = c} (here {bs = bs}) u = (bs, rw (==_refl c.id))
take_out_self {c = c} (there {x = y} {cs = cs} ch) (n, u) =
    let away : (y.id == c.id) ≡ false =
      ==_ne y.id c.id (λ same. AllOf-new (λ d. d.id ≢ y.id) ch n (sym same)) in
    let (others, got) = take_out_self ch u in (y ∷ others, rw (away, got))

-- A buffer is found by its number.
pub take_out-Changed :
    {b c : Buf} {bs cs : List Buf} (i : ℕ)
    → Changed b c bs cs
    → Unique cs
    → c.id ≡ i
    → (others : List Buf) × (take_out i cs ≡ some (c, others))
take_out-Changed {cs = cs} i ch u id =
    let (others, got) = take_out_self ch u in (others, ap (λ j. take_out j cs) (sym id) ∙ got)

pub take_out_inj :
    (i : ℕ) (bs : List Buf) {xs ys : List Buf} {x y : Buf}
    → take_out i bs ≡ some (x, xs)
    → take_out i bs ≡ some (y, ys)
    → x ≡ y
take_out_inj i bs e f = ap (λ r. r.0) (buf_inj (sym e ∙ f))
