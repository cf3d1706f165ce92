-- ===== src/Icache/Unique.antt =====
-- An inode stands in one entry of the cache at most, and `iget` finds it there.
use operating_systems_cs.Base.{
  ℕ, zero, suc, ◌<◌, ◌≡◌, ◌≢◌, refl, sym, ◌∙◌, ◌⊎◌, inl, inr, true, false, Option, none, some, List,
  [], ◌∷◌, arith, ◌==◌, ==_sound, ==_refl, Bool-cases, Option-cases, not_both, some-ne-none,
}
use operating_systems_cs.Base.Lists.{length, get_elem?, set, get_elem?-set_self, get_elem?-set_ne}
use operating_systems_cs.Icache.{is_for, scan_cache, change, take_ref, recycle, iget}
use operating_systems_cs.Icache.Keys.{scan-found, scan-missed, scan-empty}
use operating_systems_cs.Inode.{Inode}

-- Two entries in use for one inode are one entry.
abbrev pub IsUnique : List Inode → Type 0
IsUnique t =
    (i j : ℕ) (a b : Inode)
    → get_elem? t i ≡ some a
    → get_elem? t j ≡ some b
    → 0 < a.ref
    → is_for a.dev a.inum b ≡ true
    → i ≡ j

get_elem?-lt : (t : List Inode) (i : ℕ) (a : Inode) → get_elem? t i ≡ some a → i < length t
get_elem?-lt [] i a e = cc
get_elem?-lt (b ∷ t) zero a e = omega arith
get_elem?-lt (b ∷ t) (suc i) a e = omega (arith, get_elem?-lt t i a e)

-- An entry of the changed table is the new one or an old one.
set_cases :
    (t : List Inode) (i j : ℕ) (f g b : Inode)
    → get_elem? t i ≡ some f
    → get_elem? (set t i g) j ≡ some b
    → ((j ≡ i) × (b ≡ g)) ⊎ ((j ≢ i) × (get_elem? t j ≡ some b))
set_cases t i j f g b e h = elim (Bool-cases (j == i)) [
  | inl here ↦
      let at_i : j ≡ i = ==_sound j i here in
      let new : some g ≡ some b =
        sym (get_elem?-set_self t i g (get_elem?-lt t i f e)) ∙ (rw at_i at h) in
      inl (at_i, cc)
  | inr away ↦
      let ne : j ≢ i = ground arith in inr (ne, sym (get_elem?-set_ne t i j g (ground arith)) ∙ h)
]

-- No entry but `i` is in use for the inode of `g`.
abbrev Alone : List Inode → ℕ → Inode → Type 0
Alone t i g = (j : ℕ) (b : Inode) → get_elem? t j ≡ some b → is_for g.dev g.inum b ≡ true → j ≡ i

pub IsUnique-set :
    (t : List Inode) (i : ℕ) (f g : Inode)
    → get_elem? t i ≡ some f
    → IsUnique t
    → (0 < g.ref → Alone t i g)
    → IsUnique (set t i g)
IsUnique-set t i f g e u alone j k a b ha hb pos_a same =
    both (set_cases t i j f g a e ha) (set_cases t i k f g b e hb)
  where
    both :
        ((j ≡ i) × (a ≡ g)) ⊎ ((j ≢ i) × (get_elem? t j ≡ some a))
        → ((k ≡ i) × (b ≡ g)) ⊎ ((k ≢ i) × (get_elem? t k ≡ some b))
        → j ≡ k
    both (inl (p, q)) (inl (r, s)) = omega arith
    both (inr (p, q)) (inr (r, s)) = u j k a b q s pos_a same
    both (inl (p, q)) (inr (r, s)) = absurd (r (alone (rw q at pos_a) k b s (rw q at same)))
    both (inr (p, q)) (inl (r, s)) =
        let fact : is_for a.dev a.inum g ≡ true = rw s at same in
        absurd (p (alone (ground arith) j a q (ground arith)))

pub IsUnique-keep :
    (t : List Inode) (i : ℕ) (f g : Inode)
    → get_elem? t i ≡ some f
    → IsUnique t
    → g.dev ≡ f.dev
    → g.inum ≡ f.inum
    → (0 < g.ref → 0 < f.ref)
    → IsUnique (set t i g)
IsUnique-keep t i f g e u d n pos =
    IsUnique-set t i f g e u
      (λ pos_g j b h same. sym (u i j f b e h (pos pos_g) (rw (← d, ← n) same)))

change-some :
    (i : ℕ) (f : Inode → Inode) (t : List Inode) (ip : Inode)
    → get_elem? t i ≡ some ip
    → change i f t ≡ set t i (f ip)
change-some i f t ip e = rw (change, e) refl

-- What a call of `iget` or `idup` leaves in entry `i`, for this inode.
abbrev pub Holds : (dev inum i : ℕ) (t t' : List Inode) → Type 0
Holds dev inum i t t' =
    IsUnique t'
    × ((ip : Inode) × (get_elem? t' i ≡ some ip) × (is_for dev inum ip ≡ true))
    × ((j : ℕ) → j ≢ i → get_elem? t' j ≡ get_elem? t j)

Holds-set :
    (dev inum i : ℕ) (t : List Inode) (f g : Inode)
    → get_elem? t i ≡ some f
    → IsUnique (set t i g)
    → is_for dev inum g ≡ true
    → Holds dev inum i t (set t i g)
Holds-set dev inum i t f g e u k = (
  u,
  (g, get_elem?-set_self t i g (get_elem?-lt t i f e), k),
  λ j ne. get_elem?-set_ne t i j g (λ same. ne (sym same)),
)

abbrev IgetCases : (dev inum : ℕ) → List Inode → Type 0
IgetCases dev inum t =
    ((i : ℕ) × (ip : Inode) × (get_elem? t i ≡ some ip)
      × (is_for dev inum ip ≡ true)
      × (iget dev inum t ≡ some (i, set t i (take_ref ip))))
    ⊎ (((j : ℕ) (b : Inode) → get_elem? t j ≡ some b → is_for dev inum b ≡ false)
        × ((iget dev inum t ≡ none)
            ⊎ ((i : ℕ) × (ip : Inode) × (get_elem? t i ≡ some ip)
                × (ip.ref ≡ 0)
                × (iget dev inum t ≡ some (i, set t i (recycle dev inum ip))))))

iget_cases : (dev inum : ℕ) (t : List Inode) → IgetCases dev inum t
unfolding iget
iget_cases dev inum t = elim (Option-cases (scan_cache dev inum t 0 none).0) [
  | inr (r, e) ↦
      let (i, ip, h, g, k) = scan-found dev inum t 0 r none e in
      let here : r ≡ i = omega arith in
      let found : (scan_cache dev inum t 0 none).0 ≡ some i = rw here at e in
      inl (i, ip, g, k, rw (iget, found, change-some i take_ref t ip g) refl)
  | inl e ↦ inr (
    scan-missed dev inum t 0 none e,
    elim (Option-cases (scan_cache dev inum t 0 none).1) [
      | inl full ↦ inl (rw (iget, e, full) refl)
      | inr (r, m) ↦
          let (i, ip, h, g, z) = scan-empty dev inum t 0 r e m in
          let here : r ≡ i = omega arith in
          let free : (scan_cache dev inum t 0 none).1 ≡ some i = rw here at m in
          inr (i, ip, g, z, rw (iget, e, free, change-some i (recycle dev inum) t ip g) refl)
    ],
  )
]

pair_inj :
    {i j : ℕ} {t u : List Inode}
    → ◌≡◌ {A = Option (ℕ × List Inode)} (some (i, t)) (some (j, u))
    → (i ≡ j) × (t ≡ u)
pair_inj e = (cc, cc)

-- In a cache where no inode stands in two entries in use, if iget returns an entry, that entry is
-- in use for the inode, every other entry is as it was, and still no inode stands in two entries in
-- use.
pub iget-Holds :
    (dev inum i : ℕ) (t t' : List Inode)
    → IsUnique t
    → iget dev inum t ≡ some (i, t')
    → Holds dev inum i t t'
iget-Holds dev inum i t t' u e = from (iget_cases dev inum t)
  where
    result :
        (k : ℕ) (f g : Inode)
        → get_elem? t k ≡ some f
        → IsUnique (set t k g)
        → is_for dev inum g ≡ true
        → iget dev inum t ≡ some (k, set t k g)
        → Holds dev inum i t t'
    result k f g h v m made =
        let (same_i, same_t) = pair_inj (sym made ∙ e) in
        rw (← same_i, ← same_t) (Holds-set dev inum k t f g h v m)

    from : IgetCases dev inum t → Holds dev inum i t t'
    from (inl (k, ip, g, m, made)) =
        result k ip (take_ref ip) g
          (IsUnique-keep t k ip (take_ref ip) g u refl refl (λ p. ground (arith, m)))
          (ground (arith, m)) made
    from (inr (missed, inl full)) = absurd (some-ne-none e full)
    from (inr (missed, inr (k, ip, g, z, made))) =
        result k ip (recycle dev inum ip) g
          (IsUnique-set t k ip (recycle dev inum ip) g u
            (λ p j b h m. absurd (not_both m (missed j b h))))
          (ground (arith, ==_refl dev, ==_refl inum)) made

-- In a cache where no inode stands in two entries in use, iget of an inode that stands in an entry
-- in use returns that entry with one more reference and changes nothing else.
pub iget-cached :
    (dev inum i : ℕ) (t : List Inode) (ip : Inode)
    → IsUnique t
    → get_elem? t i ≡ some ip
    → is_for dev inum ip ≡ true
    → iget dev inum t ≡ some (i, set t i (take_ref ip))
iget-cached dev inum i t ip u g m = from (iget_cases dev inum t)
  where
    same_entry : {a b : Inode} → some a ≡ some b → a ≡ b
    same_entry h = cc

    from : IgetCases dev inum t → iget dev inum t ≡ some (i, set t i (take_ref ip))
    from (inl (k, jp, h, n, made)) =
        let same : k ≡ i = u k i jp ip h g (ground (arith, n)) (ground (arith, n, m)) in
        let equal : jp ≡ ip = same_entry (sym h ∙ rw same g) in rw (← same, ← equal) made
    from (inr (missed, r)) = absurd (not_both m (missed i ip g))
