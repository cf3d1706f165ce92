-- ===== src/Log/Admission.antt =====
-- `begin_op`, `log_write` and `end_op` as the steps that concurrent operations take: each critical
-- section of log.c is one step. An operation that has begun may log MAXOPBLOCKS blocks.
use native.Mathlib.Decide.{dec_lt}
use operating_systems_cs.Base.{
  ℕ, suc, ◌+◌, ◌<◌, ◌≤◌, ◌≡◌, ◌≢◌, refl, ◌∙◌, ◌⊎◌, inl, inr, true, false, none, some, List, [], ◌∷◌,
  ◌++◌, arith,
}
use operating_systems_cs.Base.Lists.{
  length, length-append, sum, sum-append, AllLe, AllLe-split, AllLe-join, sum-le,
}
use operating_systems_cs.Log.{
  Log, max_op_blocks, log_size, begin_op, EndOp, end_op, end_commit, clear, BufFlags, log_write,
}

-- The log, and what each operation in progress may still write.
pub record Ledger : Type 0 where
  pub log : Log
  pub quota : List ℕ

abbrev pub ledger : Log → List ℕ → Ledger
ledger l qs = record { log = l; quota = qs }

pub data Step : Ledger → Ledger → Type 0 where
  begins :
      {l l' : Log} {qs : List ℕ}
      → begin_op l ≡ some l'
      → Step (ledger l qs) (ledger l' (max_op_blocks ∷ qs))
  writes :
      {l l' : Log} {f' : BufFlags} (b : ℕ) (f : BufFlags) (q : ℕ) (xs ys : List ℕ)
      → log_write l b f ≡ some (l', f')
      → Step (ledger l (xs ++ suc q ∷ ys)) (ledger l' (xs ++ q ∷ ys))
  ends :
      {l l' : Log} (q : ℕ) (xs ys : List ℕ)
      → end_op l ≡ EndOp.wakes l'
      → Step (ledger l (xs ++ q ∷ ys)) (ledger l' (xs ++ ys))
  starts_commit :
      {l l' : Log} (q : ℕ) (xs ys : List ℕ)
      → end_op l ≡ EndOp.commits l'
      → Step (ledger l (xs ++ q ∷ ys)) (ledger l' (xs ++ ys))
  ends_commit :
      {l : Log} {qs : List ℕ}
      → l.committing ≡ true
      → Step (ledger l qs) (ledger (end_commit (clear l)) qs)

pub data Reach (s : Ledger) : Ledger → Type 0 where
  here : Reach s s
  next : {t u : Ledger} → Reach s t → Step t u → Reach s u

-- The log after `initlog`.
pub record IsIdle (l : Log) : Type 0 where
  pub no_ops : l.outstanding ≡ 0
  pub not_committing : l.committing ≡ false
  pub empty : l.lh.n ≡ 0

pub record IsSound (s : Ledger) : Type 0 where
  pub room : s.log.lh.n + sum s.quota ≤ log_size
  pub bounded : AllLe max_op_blocks s.quota
  pub counted : length s.quota ≡ s.log.outstanding
  pub alone : s.log.committing ≡ true → s.log.outstanding ≡ 0

IsSound-begin :
    {l l' : Log} {qs : List ℕ}
    → begin_op l ≡ some l'
    → IsSound (ledger l qs)
    → IsSound (ledger l' (max_op_blocks ∷ qs))
unfolding begin_op
IsSound-begin {qs} e v = ground (arith, sum-le max_op_blocks qs v.bounded)

-- A successful `log_write` lets the log grow by one block at most.
pub log_write-grows :
    (l : Log) (b : ℕ) (f : BufFlags) {l' : Log} {f' : BufFlags}
    → log_write l b f ≡ some (l', f')
    → (l'.lh.n ≤ l.lh.n + 1)
      × (l'.outstanding ≡ l.outstanding)
      × (l'.committing ≡ l.committing)
      × (l'.size ≡ l.size)
unfolding log_write
log_write-grows l b f e = ground arith

end_op-outstanding :
    (l l' : Log)
    → (end_op l ≡ EndOp.wakes l') ⊎ (end_op l ≡ EndOp.commits l')
    → (l'.outstanding + 1 ≡ l.outstanding)
      × (l'.lh.n ≡ l.lh.n)
      × (l'.size ≡ l.size)
      × (l'.committing ≡ true → l'.outstanding ≡ 0)
unfolding end_op
end_op-outstanding l l' e = ground arith

-- An operation in the list may have its share replaced by a smaller one.
quota_middle :
    (xs ys : List ℕ) (p q m : ℕ)
    → AllLe m (xs ++ p ∷ ys)
    → q ≤ p
    → AllLe m (xs ++ q ∷ ys)
      × AllLe m (xs ++ ys)
      × (length (xs ++ p ∷ ys) ≡ length (xs ++ ys) + 1)
      × (length (xs ++ q ∷ ys) ≡ length (xs ++ ys) + 1)
      × (sum (xs ++ p ∷ ys) ≡ sum (xs ++ ys) + p)
      × (sum (xs ++ q ∷ ys) ≡ sum (xs ++ ys) + q)
quota_middle xs ys p q m h le =
    let (hx, hp) = AllLe-split m xs (p ∷ ys) h in
    (
      AllLe-join m xs (q ∷ ys) hx (omega arith, hp.1),
      AllLe-join m xs ys hx hp.1,
      omega (arith, length-append xs (p ∷ ys), length-append xs ys),
      omega (arith, length-append xs (q ∷ ys), length-append xs ys),
      omega (arith, sum-append xs (p ∷ ys), sum-append xs ys),
      omega (arith, sum-append xs (q ∷ ys), sum-append xs ys),
    )

-- Every step of every operation keeps the reservation.
pub Step-IsSound : {s t : Ledger} → Step s t → IsSound s → IsSound t
unfolding end_commit clear
Step-IsSound (begins e) v = IsSound-begin e v
Step-IsSound (writes {l} b f q xs ys e) v = ground (
  arith,
  log_write-grows l b f e,
  quota_middle xs ys (suc q) q max_op_blocks v.bounded (omega arith),
)
Step-IsSound (ends {l} {l'} q xs ys e) v = ground (
  arith,
  end_op-outstanding l l' (inl e),
  quota_middle xs ys q q max_op_blocks v.bounded (omega arith),
)
Step-IsSound (starts_commit {l} {l'} q xs ys e) v = ground (
  arith,
  end_op-outstanding l l' (inr e),
  quota_middle xs ys q q max_op_blocks v.bounded (omega arith),
)
Step-IsSound (ends_commit {l} {qs} e) v = ground arith

Step-size : {s t : Ledger} → Step s t → t.log.size ≡ s.log.size
unfolding begin_op end_commit clear
Step-size (begins e) = ground arith
Step-size (writes {l} b f q xs ys e) = (log_write-grows l b f e).3
Step-size (ends {l} {l'} q xs ys e) = (end_op-outstanding l l' (inl e)).2
Step-size (starts_commit {l} {l'} q xs ys e) = (end_op-outstanding l l' (inr e)).2
Step-size (ends_commit e) = refl

IsIdle-IsSound : (l : Log) → IsIdle l → IsSound (ledger l [])
IsIdle-IsSound l i = ground arith

pub Reach-IsSound :
    {l : Log} {t : Ledger} → IsIdle l → Reach (ledger l []) t → IsSound t × (t.log.size ≡ l.size)
Reach-IsSound {l} i here = (IsIdle-IsSound l i, refl)
Reach-IsSound i (next r st) =
    let (v, e) = Reach-IsSound i r in (Step-IsSound st v, Step-size st ∙ e)

-- From an idle log of LOGSIZE blocks, the size that mkfs gives it, however operations interleave,
-- log_write for an operation that has begun and has written fewer than MAXOPBLOCKS blocks panics
-- exactly if the log holds LOGSIZE - 1 blocks, and it holds fewer unless this is the last block
-- that any operation in progress may still write.
pub log_write-admitted :
    {l l' : Log} (q : ℕ) (xs ys : List ℕ) (b : ℕ) (f : BufFlags)
    → IsIdle l
    → l.size ≡ log_size
    → Reach (ledger l []) (ledger l' (xs ++ suc q ∷ ys))
    → ((l'.lh.n + 1 < log_size) × (log_write l' b f ≢ none))
      ⊎ ((l'.lh.n + 1 ≡ log_size) × (log_write l' b f ≡ none) × (sum (xs ++ q ∷ ys) ≡ 0))
unfolding log_write
log_write-admitted {l'} q xs ys b f i size r =
    let (v, e) = Reach-IsSound i r in
    let (_, _, _, _, before, after) =
      quota_middle xs ys (suc q) q max_op_blocks v.bounded (omega arith) in
    let some_op : 0 < l'.outstanding = omega (arith, length-append xs (suc q ∷ ys), v.counted) in
    elim (dec_lt (l'.lh.n + 1) log_size) [
      | yes room ↦ inl (room, ground arith)
      | no full ↦
          let last : l'.lh.n + 1 ≡ log_size = omega (arith, v.room) in
          inr (last, ground arith, omega (arith, v.room))
    ]

-- From an idle log, however operations interleave, when an operation in progress ends, end_op finds
-- no commit running and a counter above zero.
pub end_op-admitted :
    {l l' : Log} (q : ℕ) (xs ys : List ℕ)
    → IsIdle l
    → Reach (ledger l []) (ledger l' (xs ++ q ∷ ys))
    → (end_op l' ≢ EndOp.panics) × (end_op l' ≢ EndOp.unmatched)
unfolding end_op
end_op-admitted q xs ys i r =
    let (v, e) = Reach-IsSound i r in
    let m = quota_middle xs ys q q max_op_blocks v.bounded (omega arith) in
    (ground arith, ground arith)
