-- ===== src/Proc/Collect.antt =====
-- `wait`: it finds a ZOMBIE child if there is one, and frees its slot.
use operating_systems_cs.Base.{
  ℕ, zero, suc, ◌+◌, ◌≡◌, ◌≢◌, refl, true, false, some, none, List, [], ◌∷◌, arith, ◌==◌,
  Bool-cases, Option-cases, inl, inr, ==_sound,
}
use operating_systems_cs.Base.Lists.{get_elem?}
use operating_systems_cs.Proc.{State, Proc, Kernel, pointer, is_zombie}
use operating_systems_cs.Proc.Calls.{Services}
use operating_systems_cs.Proc.Family.{scan_children, collected, reaped, wait}
use operating_systems_cs.Proc.Table.{get_elem?-modify_self}

is_zombie_sound : (s : State) → is_zombie s ≡ true → s ≡ State.zombie
is_zombie_sound State.zombie e = refl
is_zombie_sound _ e = cc

-- What the scan finds is a ZOMBIE child.
scan_found :
    (me : ℕ) (t : List Proc) (i r : ℕ)
    → (scan_children me t i).1 ≡ some r
    → (j : ℕ) × (p : Proc) × (r ≡ i + j)
      × (get_elem? t j ≡ some p)
      × (p.parent ≡ me)
      × (p.state ≡ State.zombie)
unfolding scan_children
scan_found me [] i r e = cc
scan_found me (q ∷ t) i r e = elim (Bool-cases (q.parent == me)) [
  | inr other ↦
      let (j, p, h, g, c, z) = scan_found me t (i + 1) r (rw other at e) in
      (suc j, p, omega arith, g, c, z)
  | inl child ↦ elim (Bool-cases (is_zombie q.state)) [
    | inl z ↦ (0, q, ground arith, refl, ==_sound q.parent me child, is_zombie_sound q.state z)
    | inr alive ↦
        let (j, p, h, g, c, z) = scan_found me t (i + 1) r (rw (child, alive) at e) in
        (suc j, p, omega arith, g, c, z)
  ]
]

-- It finds one if there is one.
scan_complete :
    (me : ℕ) (t : List Proc) (i j : ℕ) (p : Proc)
    → get_elem? t j ≡ some p
    → p.parent ≡ me
    → p.state ≡ State.zombie
    → (scan_children me t i).1 ≢ none
unfolding scan_children
scan_complete me [] i j p e c z = cc
scan_complete me (q ∷ t) i zero p e c z = ground arith
scan_complete me (q ∷ t) i (suc j) p e c z = ground (arith, scan_complete me t (i + 1) j p)

-- If the process has a ZOMBIE child, wait returns without sleeping with the pid of a ZOMBIE child,
-- whose slot it leaves UNUSED, with no pid, no parent, no stack and not killed.
pub wait-reaped :
    {F : Type 0} (svc : Services F) (me : Proc) (slot : ℕ) (k : Kernel F) (j : ℕ) (child : Proc)
    → get_elem? k.table j ≡ some child
    → child.parent ≡ pointer slot
    → child.state ≡ State.zombie
    → (i : ℕ) × (p : Proc) × (get_elem? k.table i ≡ some p)
      × (p.parent ≡ pointer slot)
      × (p.state ≡ State.zombie)
      × ((wait svc me slot k).0 ≡ reaped p.pid)
      × (q : Proc) × (get_elem? (wait svc me slot k).1.table i ≡ some q)
      × (q.state ≡ State.unused)
      × (q.pid ≡ 0)
      × (q.parent ≡ 0)
      × (q.kstack ≡ 0)
      × (q.killed ≡ false)
unfolding wait
wait-reaped svc me slot k j child e c z =
    elim (Option-cases (scan_children (pointer slot) k.table 0).1) [
      | inl missed ↦ absurd (scan_complete (pointer slot) k.table 0 j child e c z missed)
      | inr (r, found) ↦
          let (i, p, h, g, c', z') = scan_found (pointer slot) k.table 0 r found in
          let here : r ≡ i = omega arith in
          let found_i : (scan_children (pointer slot) k.table 0).1 ≡ some i = rw here at found in
          (
            i,
            p,
            g,
            c',
            z',
            rw (found_i, g, wait),
            collected p,
            rw (found_i, g, wait) (get_elem?-modify_self i collected k.table p g),
            refl,
            refl,
            refl,
            refl,
            refl,
          )
    ]
