-- ===== src/Proc/Adopt.antt =====
-- `exit`: the children of the process pass to init.
use operating_systems_cs.Base.{
  ℕ, zero, suc, ◌+◌, ◌<◌, ◌≡◌, ◌≢◌, refl, Option, some, none, List, arith, ◌==◌, if◌then◌else◌,
  Bool-cases, inl, inr, ◌⊎◌,
}
use operating_systems_cs.Base.Lists.{get_elem?}
use operating_systems_cs.Proc.{State, Proc, Kernel, in_sched, pointer, modify, wakeup1, is_zombie}
use operating_systems_cs.Proc.Calls.{Services}
use operating_systems_cs.Proc.Family.{
  pass_child, pass_children, close_files, exit_table, exit, nproc,
}
use operating_systems_cs.Proc.Table.{modify-inv, wakeup1-inv}

-- No process in the first `n` slots is a child of `me`.
abbrev pub NoChild : ℕ → ℕ → List Proc → Type 0
NoChild me n t = (j : ℕ) (p : Proc) → j < n → get_elem? t j ≡ some p → p.parent ≢ me

NoChild-wakeup1 : (me n chan : ℕ) (t : List Proc) → NoChild me n t → NoChild me n (wakeup1 chan t)
NoChild-wakeup1 me n chan t h j p l e =
    let (q, g, s) = wakeup1-inv chan t j p e in ground (arith, h j q l g)

NoChild-modify :
    (me n i : ℕ) (f : Proc → Proc) (t : List Proc)
    → ((q : Proc) → (f q).parent ≡ q.parent)
    → NoChild me n t
    → NoChild me n (modify i f t)
NoChild-modify me n i f t same h j p l e =
    let (q, g, s) = modify-inv i f t j p e in ground (arith, h j q l g, same q)

get_cases :
    (t : List Proc) (i : ℕ) → (get_elem? t i ≡ none) ⊎ ((p : Proc) × (get_elem? t i ≡ some p))
get_cases t i = go (get_elem? t i) refl
  where
    go :
        (o : Option Proc)
        → get_elem? t i ≡ o
        → (get_elem? t i ≡ none) ⊎ ((p : Proc) × (get_elem? t i ≡ some p))
    go none e = inl e
    go (some p) e = inr (p, e)

-- A slot that no longer holds a child of `me`, whatever it held.
NoChild-adopt :
    (me init i : ℕ) (t : List Proc)
    → init ≢ me
    → NoChild me i t
    → NoChild me (i + 1) (modify i (λ q. record q { parent = init }) t)
NoChild-adopt me init i t ne h j p l e =
    let (q, g, s) = modify-inv i (λ q. record q { parent = init }) t j p e in ground (arith, h j q)

-- What the round does to a table whose slot `i` holds `p`.
abbrev passed : ℕ → ℕ → ℕ → Proc → List Proc → List Proc
passed me init i p t =
    if p.parent == me
    then (let t' = modify i (λ q. record q { parent = init }) t in
        if is_zombie p.state then wakeup1 init t' else t')
    else t

NoChild-passed :
    (me init i : ℕ) (t : List Proc) (p : Proc)
    → init ≢ me
    → get_elem? t i ≡ some p
    → NoChild me i t
    → NoChild me (i + 1) (passed me init i p t)
NoChild-passed me init i t p ne e h =
    let adopted = NoChild-adopt me init i t ne h in
    elim (Bool-cases (p.parent == me)) [
      | inl child ↦ elim (Bool-cases (is_zombie p.state)) [
        | inl z ↦ rw (child, z) (NoChild-wakeup1 me (i + 1) init _ adopted)
        | inr z ↦ rw (child, z) adopted
      ]
      | inr other ↦ rw other (λ j q l g. ground (arith, h j q))
    ]

NoChild-pass_child :
    (me init i : ℕ) (t : List Proc)
    → init ≢ me
    → NoChild me i t
    → NoChild me (i + 1) (pass_child me init i t)
unfolding pass_child
NoChild-pass_child me init i t ne h = elim (get_cases t i) [
  | inl e ↦
      let same : pass_child me init i t ≡ t = rw (e, pass_child) in
      rw same (λ j q l g. ground (arith, h j q))
  | inr (p, e) ↦
      let same : pass_child me init i t ≡ passed me init i p t = rw (e, pass_child) in
      rw same (NoChild-passed me init i t p ne e h)
]

NoChild-pass_children :
    (n me init i : ℕ) (t : List Proc)
    → init ≢ me
    → NoChild me i t
    → NoChild me (i + n) (pass_children me init i n t)
unfolding pass_children
NoChild-pass_children zero me init i t ne h j p l e = h j p (omega arith) e
NoChild-pass_children (suc n) me init i t ne h j p l e =
    NoChild-pass_children n me init (i + 1) (pass_child me init i t) ne
      (NoChild-pass_child me init i t ne h) j p (omega arith) e

NoChild-exit_table :
    (me : Proc) (slot init : ℕ) (ofile : List ℕ) (t : List Proc)
    → init ≢ pointer slot
    → NoChild (pointer slot) nproc (exit_table me slot init ofile t)
unfolding exit_table
NoChild-exit_table me slot init ofile t ne =
    let t1 : List Proc =
      wakeup1 me.parent (modify slot (λ p. record p { ofile = ofile; cwd = 0 }) t) in
    let t2 : List Proc = pass_children (pointer slot) init 0 nproc t1 in
    NoChild-modify (pointer slot) nproc slot
      (λ p. record p { state = State.zombie; context = in_sched }) t2 (λ q. refl)
      (NoChild-pass_children nproc (pointer slot) init 0 t1 ne (λ j p l e. absurd (omega arith)))

-- After an exit that does not panic no process in the NPROC slots is a child of the process that
-- ended.
pub exit-NoChild :
    {F : Type 0} (svc : Services F) (me : Proc) (slot : ℕ) (k k' : Kernel F)
    → exit svc me slot k ≡ some k'
    → NoChild (pointer slot) nproc k'.table
unfolding exit
exit-NoChild svc me slot k k' e =
    let ofile = (close_files svc me.ofile k.other).0 in
    let ne : k.initproc ≢ pointer slot = ground arith in
    let same : k'.table ≡ exit_table me slot k.initproc ofile k.table = ground arith in
    rw same (NoChild-exit_table me slot k.initproc ofile k.table ne)
