-- ===== src/FileTable/Refs.antt =====
-- The reference counts of files against the references that the rest of the kernel holds.
use operating_systems_cs.Base.{
  ℕ, zero, suc, ◌+◌, ◌-◌, ◌<◌, ◌≡◌, refl, inl, inr, Bool-cases, true, false, Option, none, some,
  List, [], ◌∷◌, ◌++◌, arith, ltb, ◌==◌, ==_refl, ==_sound, if◌then◌else◌,
}
use operating_systems_cs.Base.Lists.{get_elem?, set}
use operating_systems_cs.FileTable.{fd_none, File, filealloc, filedup, shut_down, fileclose}
use operating_systems_cs.FileTable.Calls.{Services}

-- The count in slot `j`; 0 where there is no slot.
abbrev pub refs : List File → ℕ → ℕ
refs [] j = 0
refs (f ∷ fs) zero = f.ref
refs (f ∷ fs) (suc j) = refs fs j

-- How many of the references are to slot `j`.
abbrev pub held : ℕ → List ℕ → ℕ
held j [] = 0
held j (i ∷ is) = (if i == j then 1 else 0) + held j is

refs-set :
    (t : List File) (i j : ℕ) (f g : File)
    → get_elem? t i ≡ some f
    → refs (set t i g) j ≡ (if i == j then g.ref else refs t j)
refs-set [] i j f g e = cc
refs-set (h ∷ t) zero zero f g e = refl
refs-set (h ∷ t) zero (suc j) f g e = ground arith
refs-set (h ∷ t) (suc i) zero f g e = ground arith
refs-set (h ∷ t) (suc i) (suc j) f g e = ground (arith, refs-set t i j f g e)

-- A slot with a reference is in the table.
refs-some :
    (t : List File) (i : ℕ)
    → 0 < refs t i
    → (f : File) × (get_elem? t i ≡ some f) × (f.ref ≡ refs t i)
refs-some [] i h = absurd (omega arith)
refs-some (f ∷ t) zero h = (f, refl, refl)
refs-some (f ∷ t) (suc i) h = refs-some t i h

held-append : (j : ℕ) (xs ys : List ℕ) → held j (xs ++ ys) ≡ held j xs + held j ys
held-append j [] ys = omega arith
held-append j (x ∷ xs) ys = omega (arith, held-append j xs ys)

held-middle :
    (i j : ℕ) (xs ys : List ℕ)
    → held j (xs ++ i ∷ ys) ≡ (if i == j then 1 else 0) + held j (xs ++ ys)
held-middle i j xs ys = omega (arith, held-append j xs (i ∷ ys), held-append j xs ys)

later_slot :
    (o : Option ℕ) (i : ℕ)
    → elim o [ none ↦ none | some k ↦ some (suc k) ] ≡ some i
    → (k : ℕ) × (i ≡ suc k) × (o ≡ some k)
later_slot none i e = cc
later_slot (some k) i e = (k, cc, refl)

filealloc-first :
    (f : File) (t : List File)
    → (f.ref == 0) ≡ true
    → filealloc (f ∷ t) ≡ (some 0, record f { ref = 1 } ∷ t)
unfolding filealloc
filealloc-first f t e = rw e refl

filealloc-later :
    (f : File) (t : List File) (i : ℕ)
    → (f.ref == 0) ≡ false
    → (filealloc (f ∷ t)).0 ≡ some i
    → (k : ℕ) × (i ≡ suc k)
      × ((filealloc t).0 ≡ some k)
      × ((filealloc (f ∷ t)).1 ≡ f ∷ (filealloc t).1)
unfolding filealloc
filealloc-later f t i u e =
    let (k, h, g) = later_slot (filealloc t).0 i (rw u at e) in (k, h, g, rw u refl)

-- `after` has one reference more than `t`, in slot `i`, which had none.
abbrev pub Taken : ℕ → List File → List File → Type 0
Taken i t after = (refs t i ≡ 0) × ((j : ℕ) → refs after j ≡ (if i == j then 1 else 0) + refs t j)

Taken-first :
    (f : File) (t : List File) → (f.ref == 0) ≡ true → Taken 0 (f ∷ t) (record f { ref = 1 } ∷ t)
Taken-first f t e = (ground arith, counts)
  where
    counts :
        (j : ℕ) → refs (record f { ref = 1 } ∷ t) j ≡ (if 0 == j then 1 else 0) + refs (f ∷ t) j
    counts zero = ground arith
    counts (suc j) = ground arith

Taken-later : (f : File) (t t' : List File) (k : ℕ) → Taken k t t' → Taken (suc k) (f ∷ t) (f ∷ t')
Taken-later f t t' k h = (h.0, counts)
  where
    counts : (j : ℕ) → refs (f ∷ t') j ≡ (if suc k == j then 1 else 0) + refs (f ∷ t) j
    counts zero = ground arith
    counts (suc j) = ground (arith, h.1 j)

pub Taken-filealloc : (t : List File) (i : ℕ) → (filealloc t).0 ≡ some i → Taken i t (filealloc t).1
unfolding filealloc
Taken-filealloc [] i e = cc
Taken-filealloc (f ∷ t) i e = elim (Bool-cases (f.ref == 0)) [
  | inl free ↦
      let here : i ≡ 0 = first i (rw (filealloc-first f t free) at e) in
      rw (here, filealloc-first f t free) (Taken-first f t free)
  | inr used ↦
      let (k, h, g, r) = filealloc-later f t i used e in
      rw (h, r) (Taken-later f t (filealloc t).1 k (Taken-filealloc t k g))
]
  where
    first : (i : ℕ) → some 0 ≡ some i → i ≡ 0
    first i e = cc

-- Each count is the number of the references that are held.
abbrev pub Counted : List File → List ℕ → Type 0
Counted t hs = (j : ℕ) → refs t j ≡ held j hs

pub Counted-filealloc :
    (t : List File) (hs : List ℕ) (i : ℕ)
    → Counted t hs
    → (filealloc t).0 ≡ some i
    → Counted (filealloc t).1 (i ∷ hs)
Counted-filealloc t hs i v e j = omega (arith, (Taken-filealloc t i e).1 j, v j)

-- One slot changes, and the references to it.
Counted-set :
    (t : List File) (i : ℕ) (f g : File) (hs hs' : List ℕ)
    → get_elem? t i ≡ some f
    → g.ref ≡ held i hs'
    → ((j : ℕ) → (i == j) ≡ false → held j hs' ≡ held j hs)
    → Counted t hs
    → Counted (set t i g) hs'
Counted-set t i f g hs hs' e r h v j = elim (Bool-cases (i == j)) [
  | inl same ↦
      let at_i : j ≡ i = omega (arith, ==_sound i j same) in
      let new : refs (set t i g) i ≡ g.ref = rw (refs-set t i i f g e, ==_refl i) refl in
      rw at_i (omega (arith, new))
  | inr other ↦
      let old : refs (set t i g) j ≡ refs t j = rw (refs-set t i j f g e, other) refl in
      omega (arith, old, v j, h j other)
]

held_self : (i : ℕ) (hs : List ℕ) → held i (i ∷ hs) ≡ held i hs + 1
held_self i hs = rw (==_refl i) (omega arith)

held_other : (i j : ℕ) (hs : List ℕ) → (i == j) ≡ false → held j (i ∷ hs) ≡ held j hs
held_other i j hs e = rw e (omega arith)

module _ (t : List File) (i : ℕ) (xs ys : List ℕ) (v : Counted t (xs ++ i ∷ ys)) where
  -- The file behind a reference that is held.
  file-held : (f : File) × (get_elem? t i ≡ some f) × (f.ref ≡ 1 + held i (xs ++ ys))
  file-held =
      let more : refs t i ≡ 1 + held i (xs ++ ys) =
        omega (arith, v i, held-middle i i xs ys, held_self i (xs ++ ys)) in
      let (f, g, r) = refs-some t i (omega arith) in (f, g, omega arith)

  pub filedup-held : (t' : List File) × (filedup i t ≡ some t') × Counted t' (i ∷ xs ++ i ∷ ys)
  unfolding filedup
  filedup-held =
      let (f, g, r) = file-held in
      let low : ltb f.ref 1 ≡ false = ground arith in
      (
        set t i (record f { ref = f.ref + 1 }),
        rw (filedup, g, low) refl,
        Counted-set t i f (record f { ref = f.ref + 1 }) (xs ++ i ∷ ys) (i ∷ xs ++ i ∷ ys) g
            (omega
              (arith, held_self i (xs ++ i ∷ ys), held_self i (xs ++ ys), held-middle i i xs ys))
            (λ j o. held_other i j (xs ++ i ∷ ys) o) v,
      )

  module _ {F : Type 0} (svc : Services F) (s : F) where
    pub fileclose-held :
        (f : File) × (t' : List File) × (get_elem? t i ≡ some f)
        × (fileclose svc i t s ≡ some (t', if held i (xs ++ ys) == 0 then shut_down svc f s else s))
        × Counted t' (xs ++ ys)
    unfolding fileclose
    fileclose-held =
        let (f, g, r) = file-held in
        let low : ltb f.ref 1 ≡ false = ground arith in
        let drop_it : (j : ℕ) → (i == j) ≡ false → held j (xs ++ ys) ≡ held j (xs ++ i ∷ ys) =
          λ j o. omega (arith, held-middle i j xs ys, held_other i j (xs ++ ys) o) in
        elim (Bool-cases (held i (xs ++ ys) == 0)) [
          | inl last ↦
              let down : ltb 0 (f.ref - 1) ≡ false = ground arith in
              (
                f,
                set t i (record f { ref = 0; type = fd_none }),
                g,
                rw (fileclose, g, low, down, last) refl,
                Counted-set t i f (record f { ref = 0; type = fd_none }) (xs ++ i ∷ ys) (xs ++ ys) g
                    (ground arith) drop_it v,
              )
          | inr more ↦
              let down : ltb 0 (f.ref - 1) ≡ true = ground arith in
              (
                f,
                set t i (record f { ref = f.ref - 1 }),
                g,
                rw (fileclose, g, low, down, more) refl,
                Counted-set t i f (record f { ref = f.ref - 1 }) (xs ++ i ∷ ys) (xs ++ ys) g
                    (omega arith) drop_it v,
              )
        ]
