-- ===== src/Icache/Keys.antt =====
-- What the loop of `iget` finds.
use operating_systems_cs.Base.{
  ℕ, zero, suc, ◌+◌, ◌≡◌, refl, ◌⊎◌, inl, inr, true, false, ◌&&◌, Option, none, some, List, [], ◌∷◌,
  arith, ◌==◌, Bool-cases, if◌then◌else◌,
}
use operating_systems_cs.Base.Lists.{get_elem?}
use operating_systems_cs.Icache.{is_none, is_for, scan_cache}
use operating_systems_cs.Inode.{Inode}

pub scan-found :
    (dev inum : ℕ) (t : List Inode) (i r : ℕ) (empty : Option ℕ)
    → (scan_cache dev inum t i empty).0 ≡ some r
    → (j : ℕ) × (ip : Inode) × (r ≡ i + j) × (get_elem? t j ≡ some ip) × (is_for dev inum ip ≡ true)
unfolding scan_cache
scan-found dev inum [] i r empty e = cc
scan-found dev inum (ip ∷ ips) i r empty e = elim (Bool-cases (is_for dev inum ip)) [
  | inl here ↦ (0, ip, first (rw here at e), refl, here)
  | inr on ↦
      let (j, jp, h, g, f) =
        scan-found dev inum ips (i + 1) r (if is_none empty && (ip.ref == 0) then some i else empty)
          (rw on at e) in
      (suc j, jp, omega arith, g, f)
]
  where
    first : some i ≡ some r → r ≡ i + 0
    first h = ground arith

pub scan-missed :
    (dev inum : ℕ) (t : List Inode) (i : ℕ) (empty : Option ℕ)
    → (scan_cache dev inum t i empty).0 ≡ none
    → (j : ℕ) (ip : Inode) → get_elem? t j ≡ some ip
    → is_for dev inum ip ≡ false
unfolding scan_cache
scan-missed dev inum [] i empty e j ip g = cc
scan-missed dev inum (kp ∷ ips) i empty e j ip g = elim (Bool-cases (is_for dev inum kp)) [
  | inl here ↦ absurd (no_result (rw here at e))
  | inr on ↦
      at j g
        (scan-missed dev inum ips (i + 1) (if is_none empty && (kp.ref == 0) then some i else empty)
          (rw on at e))
        on
]
  where
    no_result : {a : ℕ} → some a ≡ none → ⊥
    no_result h = cc

    at :
        (j : ℕ)
        → get_elem? (kp ∷ ips) j ≡ some ip
        → ((k : ℕ) (jp : Inode) → get_elem? ips k ≡ some jp → is_for dev inum jp ≡ false)
        → is_for dev inum kp ≡ false
        → is_for dev inum ip ≡ false
    at zero g h on = let same : kp ≡ ip = cc in rw (← same) on
    at (suc k) g h on = h k ip g

-- Where the loop remembers `r` as free.
abbrev FreeAt : List Inode → (i r : ℕ) → Type 0
FreeAt t i r = (j : ℕ) × (ip : Inode) × (r ≡ i + j) × (get_elem? t j ≡ some ip) × (ip.ref ≡ 0)

remembers :
    (ip : Inode) (ips : List Inode) (i r : ℕ) (empty : Option ℕ)
    → (if is_none empty && (ip.ref == 0) then some i else empty) ≡ some r
    → (empty ≡ some r) ⊎ FreeAt (ip ∷ ips) i r
remembers ip ips i r empty e = elim (Bool-cases (is_none empty && (ip.ref == 0))) [
  | inl here ↦ inr (0, ip, first (rw here at e), refl, ground arith)
  | inr on ↦ inl (rw on at e)
]
  where
    first : some i ≡ some r → r ≡ i + 0
    first h = ground arith

scan_remembers :
    (dev inum : ℕ) (t : List Inode) (i r : ℕ) (empty : Option ℕ)
    → (scan_cache dev inum t i empty).0 ≡ none
    → (scan_cache dev inum t i empty).1 ≡ some r
    → (empty ≡ some r) ⊎ FreeAt t i r
unfolding scan_cache
scan_remembers dev inum [] i r empty m e = inl e
scan_remembers dev inum (ip ∷ ips) i r empty m e = elim (Bool-cases (is_for dev inum ip)) [
  | inl here ↦ absurd (no_result (rw here at m))
  | inr on ↦ later (
      scan_remembers dev inum ips (i + 1) r
        (if is_none empty && (ip.ref == 0) then some i else empty) (rw on at m) (rw on at e))
]
  where
    no_result : {a : ℕ} → some a ≡ none → ⊥
    no_result h = cc

    later :
        ((if is_none empty && (ip.ref == 0) then some i else empty) ≡ some r) ⊎ FreeAt ips (i + 1) r
        → (empty ≡ some r) ⊎ FreeAt (ip ∷ ips) i r
    later (inl h) = remembers ip ips i r empty h
    later (inr (j, jp, h, g, z)) = inr (suc j, jp, omega arith, g, z)

-- The entry that `iget` recycles has no reference.
pub scan-empty :
    (dev inum : ℕ) (t : List Inode) (i r : ℕ)
    → (scan_cache dev inum t i none).0 ≡ none
    → (scan_cache dev inum t i none).1 ≡ some r
    → (j : ℕ) × (ip : Inode) × (r ≡ i + j) × (get_elem? t j ≡ some ip) × (ip.ref ≡ 0)
scan-empty dev inum t i r m e = found (scan_remembers dev inum t i r none m e)
  where
    found : (none ≡ some r) ⊎ FreeAt t i r → FreeAt t i r
    found (inl h) = cc
    found (inr f) = f
