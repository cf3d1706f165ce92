-- ===== src/Sysfile/Slots.antt =====
-- sysfile.c: the descriptors of a process.
use operating_systems_cs.Base.{
  ℕ, zero, suc, ◌+◌, ◌≡◌, refl, sym, ◌⊎◌, ◌∙◌, inl, inr, ap, Option, none, some, List, [], ◌∷◌,
  arith, Option-cases, some-ne-none,
}
use operating_systems_cs.Base.Lists.{set}
use operating_systems_cs.Sysfile.{
  Services, State, M, Call, ◌>>=◌, pure, kernel, gets, modify, try, branch, argfd, find_slot,
  fdalloc, close_both, fill_pipe, sys_dup,
}

some_inj : {A : Type 0} {a b : A} → ◌≡◌ {A = Option A} (some a) (some b) → a ≡ b
some_inj e = cc

-- Slot `i` is the first that is free.
unfoldable pub FirstFree : List (Option ℕ) → (i : ℕ) → Type 0
FirstFree [] i = ⊥
FirstFree (none ∷ ofile) zero = Unit
FirstFree (none ∷ ofile) (suc i) = ⊥
FirstFree (some f ∷ ofile) zero = ⊥
FirstFree (some f ∷ ofile) (suc i) = FirstFree ofile i

-- No slot is free.
pub Full : List (Option ℕ) → Type 0
Full [] = Unit
Full (none ∷ ofile) = ⊥
Full (some f ∷ ofile) = Full ofile

slots-cases : (ofile : List (Option ℕ)) → Full ofile ⊎ ((i : ℕ) × FirstFree ofile i)
unfolding Full FirstFree
slots-cases [] = inl tt
slots-cases (none ∷ ofile) = inr (0, tt)
slots-cases (some f ∷ ofile) = elim (slots-cases ofile) [
  | inl full ↦ inl full
  | inr (i, first) ↦ inr (suc i, first)
]

find_slot-FirstFree :
    (ofile : List (Option ℕ)) (i fd f : ℕ)
    → FirstFree ofile i
    → find_slot ofile fd f ≡ some (fd + i, set ofile i (some f))
unfolding FirstFree find_slot
find_slot-FirstFree [] i fd f h = absurd h
find_slot-FirstFree (none ∷ ofile) zero fd f h = ap (λ n. some (n, some f ∷ ofile)) (omega arith)
find_slot-FirstFree (none ∷ ofile) (suc i) fd f h = absurd h
find_slot-FirstFree (some g ∷ ofile) zero fd f h = absurd h
find_slot-FirstFree (some g ∷ ofile) (suc i) fd f h =
    rw (find_slot-FirstFree ofile i (fd + 1) f h)
      (ap (λ n. some (n, some g ∷ set ofile i (some f))) (omega arith))

find_slot-Full : (ofile : List (Option ℕ)) (fd f : ℕ) → Full ofile → find_slot ofile fd f ≡ none
unfolding Full find_slot
find_slot-Full [] fd f h = refl
find_slot-Full (none ∷ ofile) fd f h = absurd h
find_slot-Full (some g ∷ ofile) fd f h = rw (find_slot-Full ofile (fd + 1) f h) refl

-- To free the slot that was taken gives the table as it was.
set-undone :
    (ofile : List (Option ℕ)) (i f : ℕ)
    → FirstFree ofile i
    → set (set ofile i (some f)) i none ≡ ofile
unfolding FirstFree
set-undone [] i f h = absurd h
set-undone (none ∷ ofile) zero f h = refl
set-undone (none ∷ ofile) (suc i) f h = absurd h
set-undone (some g ∷ ofile) zero f h = absurd h
set-undone (some g ∷ ofile) (suc i) f h = ap (◌∷◌ (some g)) (set-undone ofile i f h)

fdalloc-FirstFree :
    {S : Type 0} (s : State S) (i f : ℕ)
    → FirstFree s.ofile i
    → fdalloc f s ≡ some (some i, record s { ofile = set s.ofile i (some f) })
unfolding fdalloc
fdalloc-FirstFree s i f h =
    rw (fdalloc, find_slot-FirstFree s.ofile i 0 f h)
      (ap (λ n. some (some n, record s { ofile = set s.ofile i (some f) })) (omega arith))

fdalloc-Full : {S : Type 0} (s : State S) (f : ℕ) → Full s.ofile → fdalloc f s ≡ some (none, s)
unfolding fdalloc
fdalloc-Full s f h = rw (fdalloc, find_slot-Full s.ofile 0 f h)

-- The step that a run which does not panic begins with, and what it does from there.
>>=-inv :
    {S A B : Type 0} (m : M S A) (g : A → M S B) (s s' : State S) (b : B)
    → (m >>= g) s ≡ some (b, s')
    → (a : A) × (t : State S) × (m s ≡ some (a, t)) × (g a t ≡ some (b, s'))
unfolding ◌>>=◌
>>=-inv m g s s' b e = elim (Option-cases (m s)) [
  | inl panicked ↦ absurd (some-ne-none e (rw (◌>>=◌, panicked)))
  | inr ((a, t), done) ↦ (a, t, done, rw (◌>>=◌, done) at e)
]

kernel-ofile :
    {S A : Type 0} (c : Call S A) (s s' : State S) (a : A)
    → kernel c s ≡ some (a, s')
    → s'.ofile ≡ s.ofile
unfolding kernel
kernel-ofile c s s' a e = elim (Option-cases (c s.kernel)) [
  | inl panicked ↦ absurd (some-ne-none e (rw (kernel, panicked)))
  | inr ((b, t), done) ↦ ap (λ r. r.1.ofile) (sym (some_inj (rw (kernel, done) at e)))
]

module _ {S : Type 0} (k : Services S) where
  -- With an open descriptor as its argument, where filedup does not panic, sys_dup returns the
  -- first free slot, which gets the file; the other slots stay.
  pub sys_dup_lem :
      (s : State S) (fd f i : ℕ) (t : S)
      → argfd (k.user s.kernel) s.ofile 0 ≡ some (fd, f)
      → k.filedup f s.kernel ≡ some (tt, t)
      → FirstFree s.ofile i
      → sys_dup k s
        ≡ some (some i, record { ofile = set s.ofile i (some f); cwd = s.cwd; kernel = t })
  unfolding sys_dup ◌>>=◌ gets try kernel pure
  sys_dup_lem s fd f i t a e h = rw (a, try, ◌>>=◌, fdalloc-FirstFree s i f h, kernel, e)

  close_both-ofile :
      (s s' : State S) (rf wf : ℕ) → close_both k rf wf s ≡ some (none, s') → s'.ofile ≡ s.ofile
  unfolding close_both pure
  close_both-ofile s s' rf wf e =
      let (_, t, first, rest) = >>=-inv _ _ s s' none e in
      let (_, u, second, last) = >>=-inv _ _ t s' none rest in
      ap (λ r. r.1.ofile) (sym (some_inj last))
      ∙ kernel-ofile (k.fileclose wf) t u tt second
      ∙ kernel-ofile (k.fileclose rf) s t tt first

  -- Where sys_pipe fails after pipealloc, the descriptors of the process are as they were.
  pub fill_pipe-none :
      (s s' : State S) (fd rf wf : ℕ)
      → fill_pipe k fd rf wf s ≡ some (none, s')
      → s'.ofile ≡ s.ofile
  unfolding fill_pipe ◌>>=◌ branch modify pure
  fill_pipe-none s s' fd rf wf e = elim (slots-cases s.ofile) [
    | inl full ↦ close_both-ofile s s' rf wf (rw (fill_pipe, ◌>>=◌, fdalloc-Full s rf full) at e)
    | inr (i, first) ↦
        let t = record s { ofile = set s.ofile i (some rf) } in
        elim (slots-cases t.ofile) [
          | inl full ↦
              close_both-ofile (record t { ofile = set t.ofile i none }) s' rf wf
                (rw (fill_pipe, ◌>>=◌, fdalloc-FirstFree s i rf first, fdalloc-Full t wf full) at e)
              ∙ set-undone s.ofile i rf first
          | inr (j, second) ↦ absurd (
              some-ne-none {A = ℕ} {a = 0}
                (sym (
                  ap (λ r. r.0)
                    (some_inj (
                      rw
                        (
                          fill_pipe,
                          ◌>>=◌,
                          fdalloc-FirstFree s i rf first,
                          fdalloc-FirstFree t j wf second,
                        )
                        at e))))
                refl)
        ]
  ]
