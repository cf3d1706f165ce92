-- ===== src/Proc/Table.antt =====
-- What a slot of the process table holds after a change.
use operating_systems_cs.Base.{
  ℕ, zero, suc, ◌+◌, ◌<◌, ◌≡◌, ◌≢◌, refl, true, false, ◌&&◌, some, List, [], ◌∷◌, arith, ==_refl,
  Bool-cases, inl, inr, ◌==◌, if◌then◌else◌,
}
use operating_systems_cs.Base.Lists.{length, get_elem?}
use operating_systems_cs.Proc.{
  State, Proc, is_sleeping, is_unused, find_unused, modify, wakeup1, mark_killed, kill_loop,
}

pub get_elem?-modify :
    (i : ℕ) (f : Proc → Proc) (t : List Proc) (j : ℕ) (p : Proc)
    → get_elem? t j ≡ some p
    → get_elem? (modify i f t) j ≡ some (if i == j then f p else p)
unfolding modify
get_elem?-modify i f [] j p e = cc
get_elem?-modify zero f (q ∷ t) zero p e = ground arith
get_elem?-modify zero f (q ∷ t) (suc j) p e = ground arith
get_elem?-modify (suc i) f (q ∷ t) zero p e = ground arith
get_elem?-modify (suc i) f (q ∷ t) (suc j) p e = ground (arith, get_elem?-modify i f t j p e)

pub get_elem?-modify_self :
    (i : ℕ) (f : Proc → Proc) (t : List Proc) (p : Proc)
    → get_elem? t i ≡ some p
    → get_elem? (modify i f t) i ≡ some (f p)
get_elem?-modify_self i f t p e = rw (get_elem?-modify i f t i p e, ==_refl i)

-- What `wakeup1` does to one process.
abbrev pub woken : ℕ → Proc → Proc
woken chan p =
    if is_sleeping p.state && (p.chan == chan) then record p { state = State.runnable } else p

pub get_elem?-wakeup1 :
    (chan : ℕ) (t : List Proc) (j : ℕ) (p : Proc)
    → get_elem? t j ≡ some p
    → get_elem? (wakeup1 chan t) j ≡ some (woken chan p)
unfolding wakeup1
get_elem?-wakeup1 chan [] j p e = cc
get_elem?-wakeup1 chan (q ∷ t) zero p e = ground arith
get_elem?-wakeup1 chan (q ∷ t) (suc j) p e = get_elem?-wakeup1 chan t j p e

-- Back from a slot of the changed table.
==_suc : (i j : ℕ) → (suc i == suc j) ≡ (i == j)
==_suc i j = ground arith

==_zero-suc : (j : ℕ) → (zero == suc j) ≡ false
==_zero-suc j = ground arith

==_suc-zero : (i : ℕ) → (suc i == zero) ≡ false
==_suc-zero i = ground arith

some_inj : {p q : Proc} → some p ≡ some q → q ≡ p
some_inj e = cc

pub modify-inv :
    (i : ℕ) (f : Proc → Proc) (t : List Proc) (j : ℕ) (p : Proc)
    → get_elem? (modify i f t) j ≡ some p
    → (q : Proc) × (get_elem? t j ≡ some q) × (p ≡ (if i == j then f q else q))
unfolding modify
modify-inv i f [] j p e = cc
modify-inv zero f (q ∷ t) zero p e = (q, refl, some_inj e)
modify-inv zero f (q ∷ t) (suc j) p e = (p, e, rw (==_zero-suc j) refl)
modify-inv (suc i) f (q ∷ t) zero p e = (q, refl, rw (==_suc-zero i) (some_inj e))
modify-inv (suc i) f (q ∷ t) (suc j) p e = rw (==_suc i j) (modify-inv i f t j p e)

pub wakeup1-inv :
    (chan : ℕ) (t : List Proc) (j : ℕ) (p : Proc)
    → get_elem? (wakeup1 chan t) j ≡ some p
    → (q : Proc) × (get_elem? t j ≡ some q) × (p ≡ woken chan q)
unfolding wakeup1
wakeup1-inv chan [] j p e = cc
wakeup1-inv chan (q ∷ t) zero p e = (q, refl, some_inj e)
wakeup1-inv chan (q ∷ t) (suc j) p e = wakeup1-inv chan t j p e

pub length-modify : (i : ℕ) (f : Proc → Proc) (t : List Proc) → length (modify i f t) ≡ length t
unfolding modify
length-modify i f [] = refl
length-modify zero f (q ∷ t) = refl
length-modify (suc i) f (q ∷ t) = omega (arith, length-modify i f t)

pub length-wakeup1 : (chan : ℕ) (t : List Proc) → length (wakeup1 chan t) ≡ length t
unfolding wakeup1
length-wakeup1 chan [] = refl
length-wakeup1 chan (q ∷ t) = omega (arith, length-wakeup1 chan t)

is_unused_sound : (s : State) → is_unused s ≡ true → s ≡ State.unused
is_unused_sound State.unused e = refl
is_unused_sound _ e = cc

-- The search finds an UNUSED slot.
pub find_unused-get_elem? :
    (t : List Proc) (i r : ℕ)
    → find_unused t i ≡ some r
    → (j : ℕ) × (p : Proc) × (r ≡ i + j) × (get_elem? t j ≡ some p) × (p.state ≡ State.unused)
unfolding find_unused
find_unused-get_elem? [] i r e = cc
find_unused-get_elem? (q ∷ t) i r e = elim (Bool-cases (is_unused q.state)) [
  | inl free ↦ (0, q, ground arith, refl, is_unused_sound q.state free)
  | inr used ↦
      let (j, p, h, g, u) = find_unused-get_elem? t (i + 1) r (rw used at e) in
      (suc j, p, omega arith, g, u)
]

still_unused : (p : Proc) → is_unused (mark_killed p).state ≡ is_unused p.state
still_unused p = go p.state
  where
    go : (s : State) → is_unused (if is_sleeping s then State.runnable else s) ≡ is_unused s
    go State.sleeping = refl
    go State.unused = refl
    go _ = refl

-- `kill` neither frees a slot nor takes one.
pub find_unused-kill_loop :
    (pid : ℕ) (t : List Proc) (i : ℕ) → find_unused (kill_loop pid t).1 i ≡ find_unused t i
unfolding kill_loop find_unused
find_unused-kill_loop pid [] i = refl
find_unused-kill_loop pid (q ∷ t) i =
    ground (arith, still_unused q, find_unused-kill_loop pid t (i + 1))

-- `kill` marks the first process with the pid, whatever its state.
pub kill_loop-marks :
    (pid : ℕ) (t : List Proc) (i : ℕ) (p : Proc)
    → get_elem? t i ≡ some p
    → p.pid ≡ pid
    → ((j : ℕ) (q : Proc) → j < i → get_elem? t j ≡ some q → q.pid ≢ pid)
    → ((kill_loop pid t).0 ≡ true) × (get_elem? (kill_loop pid t).1 i ≡ some (mark_killed p))
unfolding kill_loop
kill_loop-marks pid [] i p e h before = cc
kill_loop-marks pid (q ∷ t) zero p e h before = ground arith
kill_loop-marks pid (q ∷ t) (suc i) p e h before =
    ground (
      arith,
      before 0 q,
      kill_loop-marks pid t i p e h (λ j r l g. before (suc j) r (omega arith) g),
    )
