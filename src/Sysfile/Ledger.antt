-- ===== src/Sysfile/Ledger.antt =====
-- What a call of sysfile.c holds: transactions that it has begun, references to inodes, and locks of
-- inodes, each with the inode's number; and the rules that count them along a run.
use operating_systems_cs.Base.{
  ℕ, suc, ◌≡◌, refl, sym, ap, ◌∙◌, Bool, true, false, ◌==◌, if◌then◌else◌, Option, none, some, List,
  arith,
}
use mathlib.Core.Path.{subst, fun_ext}
use operating_systems_cs.Sysfile.{
  Call, State, M, ◌>>=◌, pure, panic, kernel, gets, modify, try, branch, find_slot, fdalloc,
  set_cwd,
}

-- How often each inode is referred to or locked.
abbrev pub Counts : Type 0
Counts = ℕ → ℕ

-- Once more for `ip`.
unfoldable pub plus : (ip : ℕ) → Counts → Counts
plus ip r j = if j == ip then suc (r j) else r j

pub plus_comm : (a b : ℕ) (r : Counts) → plus a (plus b r) ≡ plus b (plus a r)
unfolding plus
plus_comm a b r = fun_ext (λ j. ground arith)

pub data Ledger : Type 0 where
  holds : (transactions : ℕ) (references locks : Counts) → Ledger

-- With the directory of the process.
pub data Held : Type 0 where
  at : (cwd : ℕ) → Ledger → Held

unfoldable pub look : {S : Type 0} → (S → Ledger) → State S → Held
look view s = at s.cwd (view s.kernel)

-- What a run that does not panic comes to: its result, and what is held then.
pub Ends : {S A : Type 0} → (S → Ledger) → (A → Held → Type 0) → Option (A × State S) → Type 0
Ends view P none = Unit
Ends view P (some (a, s)) = P a (look view s)

-- A run that starts with `l` held ends as `P` says.
pub record Takes {S A : Type 0} (view : S → Ledger) (l : Held) (m : M S A) (P : A → Held → Type 0)
    : Type 0 where
  pub run : (s : State S) → look view s ≡ l → Ends view P (m s)

abbrev pub Leaves : {A : Type 0} → (A → Held) → A → Held → Type 0
Leaves f a l = l ≡ f a

-- The same of a call into the kernel, with what is held for each result.
unfoldable pub Gives : {S A : Type 0} → (S → Ledger) → (A → Ledger) → Option (A × S) → Type 0
Gives view f none = Unit
Gives view f (some (a, t)) = view t ≡ f a

pub record Spends {S A : Type 0} (view : S → Ledger) (l : Ledger) (c : Call S A) (f : A → Ledger)
    : Type 0 where
  pub spend : (t : S) → view t ≡ l → Gives view f (c t)

-- With a reference to the inode of the result, or a reference to it and its lock, if there is one.
abbrev pub with_ref : {A : Type 0} → (A → ℕ) → (d : ℕ) (r l : Counts) → Option A → Ledger
with_ref ip d r l none = holds d r l
with_ref ip d r l (some a) = holds d (plus (ip a) r) l

abbrev pub with_locked : (d : ℕ) (r l : Counts) → Option ℕ → Ledger
with_locked d r l none = holds d r l
with_locked d r l (some ip) = holds d (plus ip r) (plus ip l)

pub at_inj : {v w : ℕ} {k l : Ledger} → at v k ≡ at w l → (v ≡ w) × (k ≡ l)
at_inj e = (cc, cc)

-- A step that does not panic.
pub >>=-some :
    {S A B : Type 0} (m : M S A) (f : A → M S B) (s s' : State S) (a : A)
    → m s ≡ some (a, s')
    → (m >>= f) s ≡ f a s'
unfolding ◌>>=◌
>>=-some m f s s' a e = rw (◌>>=◌, e) refl

module _ {S : Type 0} (view : S → Ledger) where
  pub look-holds : {l : Ledger} (s : State S) → view s.kernel ≡ l → look view s ≡ at s.cwd l
  unfolding look
  look-holds s e = ap (at s.cwd) e

  Gives-Ends :
      {A : Type 0} {w : ℕ} (f : A → Ledger) (s : State S) (o : Option (A × S))
      → s.cwd ≡ w
      → Gives view f o
      → Ends view
          (Leaves (λ a. at w (f a)))
          (elim o [ none ↦ none | some (a, t) ↦ some (a, record s { kernel = t }) ])
  unfolding Gives Ends look
  Gives-Ends f s none c e = tt
  Gives-Ends f s (some (a, t)) c e = rw (c, e) refl

  pub use_call :
      {A : Type 0} {w : ℕ} {l : Ledger} {c : Call S A} {f : A → Ledger}
      → Spends view l c f
      → Takes view (at w l) (kernel c) (Leaves (λ a. at w (f a)))
  unfolding kernel look
  use_call {c = c} {f = f} spends = record {
    run = λ s h.
        let (same, e) = at_inj h in Gives-Ends f s (c s.kernel) same (spends.spend s.kernel e);
  }

  -- The order of two references, or of two locks, is of no account.
  pub swap_refs :
      {A : Type 0} {w d : ℕ} {l : Counts} {m : M S A} {P : A → Held → Type 0} (a b : ℕ) (r : Counts)
      → Takes view (at w (holds d (plus b (plus a r)) l)) m P
      → Takes view (at w (holds d (plus a (plus b r)) l)) m P
  swap_refs {w = w} {d = d} {l = l} a b r t = record {
    run = λ s h. t.run s (h ∙ ap (λ x. at w (holds d x l)) (plus_comm a b r));
  }

  pub swap_locks :
      {A : Type 0} {w d : ℕ} {r : Counts} {m : M S A} {P : A → Held → Type 0} (a b : ℕ) (l : Counts)
      → Takes view (at w (holds d r (plus b (plus a l)))) m P
      → Takes view (at w (holds d r (plus a (plus b l)))) m P
  swap_locks {w = w} {d = d} {r = r} a b l t = record {
    run = λ s h. t.run s (h ∙ ap (λ x. at w (holds d r x)) (plus_comm a b l));
  }

  Ends-bind :
      {A B : Type 0} (f : A → Held) (g : A → M S B) (P : B → Held → Type 0)
      (o : Option (A × State S))
      → Ends view (Leaves f) o
      → ((a : A) → Takes view (f a) (g a) P)
      → Ends view P (elim o [ none ↦ none | some (a, s) ↦ g a s ])
  unfolding Ends
  Ends-bind f g P none e rest = tt
  Ends-bind f g P (some (a, s)) e rest = (rest a).run s e

  pub bind :
      {A B : Type 0} {l : Held} {m : M S A} {f : A → Held} {g : A → M S B} {P : B → Held → Type 0}
      → Takes view l m (Leaves f)
      → ((a : A) → Takes view (f a) (g a) P)
      → Takes view l (m >>= g) P
  unfolding ◌>>=◌
  bind {m = m} {f = f} {g = g} {P = P} first rest = record {
    run = λ s h. Ends-bind f g P (m s) (first.run s h) rest;
  }

  pub Takes-pure :
      {A : Type 0} {l : Held} {P : A → Held → Type 0} (a : A) → P a l → Takes view l (pure a) P
  unfolding Ends pure
  Takes-pure {P = P} a p = record { run = λ s h. rw h p }

  pub Takes-panic : {A : Type 0} {l : Held} {P : A → Held → Type 0} → Takes view l panic P
  unfolding Ends panic
  Takes-panic = record { run = λ s h. tt }

  pub Takes-gets :
      {A : Type 0} {l : Held} (f : State S → A) → Takes view l (gets f) (Leaves (λ _. l))
  unfolding Ends gets
  Takes-gets f = record { run = λ s h. h }

  pub Takes-modify :
      {l : Held} (f : S → S)
      → ((t : S) → view (f t) ≡ view t)
      → Takes view l (modify f) (Leaves (λ _. l))
  unfolding Ends modify look
  Takes-modify f same = record { run = λ s h. ap (at s.cwd) (same s.kernel) ∙ h }

  Ends-fdalloc :
      {l : Held} (s : State S) (o : Option (ℕ × List (Option ℕ)))
      → look view s ≡ l
      → Ends view (Leaves (λ (_ : Option ℕ). l)) (elim o [
        | none ↦ some (none, s)
        | some (fd, ofile) ↦ some (some fd, record s { ofile = ofile })
      ])
  unfolding Ends look
  Ends-fdalloc s none h = h
  Ends-fdalloc s (some r) h = h

  pub Takes-fdalloc : {l : Held} (f : ℕ) → Takes view l (fdalloc f) (Leaves (λ _. l))
  unfolding Ends fdalloc look
  Takes-fdalloc f = record { run = λ s h. Ends-fdalloc s (find_slot s.ofile 0 f) h }

  pub Takes-if :
      {A : Type 0} {l : Held} {m n : M S A} {P : A → Held → Type 0} (b : Bool)
      → Takes view l m P
      → Takes view l n P
      → Takes view l (if b then m else n) P
  Takes-if true p q = p
  Takes-if false p q = q

  pub Takes-branch :
      {A B : Type 0} {l : Held} {m : M S B} {g : A → M S B} {P : B → Held → Type 0} (o : Option A)
      → Takes view l m P
      → ((a : A) → Takes view l (g a) P)
      → Takes view l (branch o m g) P
  unfolding branch
  Takes-branch none p q = p
  Takes-branch (some a) p q = q a

  -- A step whose result the run branches on, where what is held depends on it.
  pub bind-branch :
      {A B : Type 0} {l : Held} {c : M S (Option A)} {f : Option A → Held} {m : M S B}
      {g : A → M S B} {P : B → Held → Type 0}
      → Takes view l c (Leaves f)
      → Takes view (f none) m P
      → ((a : A) → Takes view (f (some a)) (g a) P)
      → Takes view l (c >>= λ o. branch o m g) P
  unfolding branch
  bind-branch {f = f} {m = m} {g = g} {P = P} first p q =
      bind first λ o. elim o as (λ o. Takes view (f o) (branch o m g) P) [ none ↦ p | some a ↦ q a ]

  Ends-map :
      {A : Type 0} (P Q : A → Held → Type 0) (o : Option (A × State S))
      → ((a : A) (l : Held) → P a l → Q a l)
      → Ends view P o
      → Ends view Q o
  unfolding Ends
  Ends-map P Q none f e = tt
  Ends-map P Q (some (a, s)) f e = f a (look view s) e

  pub Takes-map :
      {A : Type 0} {l : Held} {m : M S A} {P Q : A → Held → Type 0}
      → ((a : A) (l : Held) → P a l → Q a l)
      → Takes view l m P
      → Takes view l m Q
  Takes-map {m = m} {P = P} {Q = Q} f t = record { run = λ s h. Ends-map P Q (m s) f (t.run s h) }

  pub bind-try :
      {A B : Type 0} {l : Held} {c : M S (Option A)} {f : Option A → Held} {g : A → M S (Option B)}
      {P : Option B → Held → Type 0}
      → Takes view l c (Leaves f)
      → P none (f none)
      → ((a : A) → Takes view (f (some a)) (g a) P)
      → Takes view l (c >>= λ o. try o g) P
  unfolding try
  bind-try {f = f} {g = g} {P = P} first p q =
      bind first λ o. elim o as (λ o. Takes view (f o) (try o g) P) [
        | none ↦ Takes-pure none p
        | some a ↦ q a
      ]

  -- A process moves to another directory.
  pub Takes-set_cwd :
      {w : ℕ} {l : Ledger} (ip : ℕ) → Takes view (at w l) (set_cwd ip) (Leaves (λ _. at ip l))
  unfolding Ends set_cwd look
  Takes-set_cwd ip = record { run = λ s h. ap (at ip) (at_inj h).1 }

  pub bind-cwd :
      {B : Type 0} {w : ℕ} {l : Ledger} (g : ℕ → M S B) {P : B → Held → Type 0}
      → Takes view (at w l) (g w) P
      → Takes view (at w l) (gets (λ s. s.cwd) >>= g) P
  unfolding Ends gets ◌>>=◌ look
  bind-cwd g {P = P} t = record {
    run = λ s h. subst (λ v. Ends view P (g v s)) (sym (at_inj h).0) (t.run s h);
  }

  pub Takes-result :
      {A : Type 0} {l : Held} {m : M S A} {P : A → Held → Type 0} (s s' : State S) (a : A)
      → Takes view l m P
      → look view s ≡ l
      → m s ≡ some (a, s')
      → P a (look view s')
  unfolding Ends
  Takes-result {P = P} s s' a t h e = rw e at (t.run s h)
