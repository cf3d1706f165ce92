-- ===== src/FileTable/Steps.antt =====
-- Sequences of calls of file.c: a file that is held is never given out again, and it is shut down by
-- the close of its last reference.
use operating_systems_cs.Base.{
  ℕ, ◌≡◌, ◌≢◌, sym, ◌∙◌, Option, some, List, ◌∷◌, ◌++◌, arith, ◌==◌, if◌then◌else◌,
}
use operating_systems_cs.Base.Lists.{get_elem?}
use operating_systems_cs.FileTable.{File, filealloc, filedup, shut_down, fileclose}
use operating_systems_cs.FileTable.Calls.{Services}
use operating_systems_cs.FileTable.Refs.{
  refs, held, Taken-filealloc, Counted, Counted-filealloc, filedup-held, fileclose-held,
}

-- The table, and the references that the rest of the kernel holds: slots in the open files of the
-- processes and in the system calls that run.
pub record Ledger (F : Type 0) : Type 0 where
  pub table : List File
  pub holders : List ℕ
  pub other : F

-- What may happen next. What a system call sets in the fields of a file keeps its count.
pub data Step {F : Type 0} (svc : Services F) : Ledger F → Ledger F → Type 0 where
  allocs :
      {t : List File} {hs : List ℕ} {s : F} (i : ℕ)
      → (filealloc t).0 ≡ some i
      → Step svc
          (record { table = t; holders = hs; other = s })
          (record { table = (filealloc t).1; holders = i ∷ hs; other = s })
  dups :
      {t t' : List File} {s : F} (i : ℕ) (xs ys : List ℕ)
      → filedup i t ≡ some t'
      → Step svc
          (record { table = t; holders = xs ++ i ∷ ys; other = s })
          (record { table = t'; holders = i ∷ xs ++ i ∷ ys; other = s })
  closes :
      {t t' : List File} {s s' : F} (i : ℕ) (xs ys : List ℕ)
      → fileclose svc i t s ≡ some (t', s')
      → Step svc
          (record { table = t; holders = xs ++ i ∷ ys; other = s })
          (record { table = t'; holders = xs ++ ys; other = s' })
  others :
      {t t' : List File} {hs : List ℕ} {s s' : F}
      → ((j : ℕ) → refs t' j ≡ refs t j)
      → Step svc
          (record { table = t; holders = hs; other = s })
          (record { table = t'; holders = hs; other = s' })

pub data Reach {F : Type 0} (svc : Services F) (s : Ledger F) : Ledger F → Type 0 where
  here : Reach svc s s
  next : {t u : Ledger F} → Reach svc s t → Step svc t u → Reach svc s u

some_inj : {u v : List File} → some u ≡ some v → u ≡ v
some_inj e = cc

pair_inj :
    {F : Type 0} {u v : List File} {s s' : F}
    → {o : Option (List File × F)} → o ≡ some (u, s)
    → o ≡ some (v, s')
    → u ≡ v
pair_inj e h = cc

module _ {F : Type 0} (svc : Services F) where
  Step-Counted :
      {l m : Ledger F} → Step svc l m → Counted l.table l.holders → Counted m.table m.holders
  Step-Counted (allocs {t} {hs} i e) v = Counted-filealloc t hs i v e
  Step-Counted (dups {t} {t'} i xs ys e) v =
      let (u, g, c) = filedup-held t i xs ys v in
      let same : u ≡ t' = some_inj (sym g ∙ e) in rw same at c
  Step-Counted (closes {t} {t'} {s} {s'} i xs ys e) v =
      let (f, u, g, h, c) = fileclose-held t i xs ys v svc s in
      let same : u ≡ t' = pair_inj h e in rw same at c
  Step-Counted (others h) v = λ j. h j ∙ v j

  Reach-Counted :
      {l m : Ledger F} → Reach svc l m → Counted l.table l.holders → Counted m.table m.holders
  Reach-Counted here v = v
  Reach-Counted (next r st) v = Step-Counted st (Reach-Counted r v)

  -- From a table whose counts are the references held, after any sequence of successful filealloc,
  -- of filedup and fileclose of held references, and of steps that keep the counts, fileclose of a
  -- held reference does not panic, and shuts the file down (pipeclose, or iput in a transaction)
  -- exactly if no other reference to the slot is held.
  pub fileclose-last :
      {l : Ledger F} {t : List File} {s : F} (i : ℕ) (xs ys : List ℕ)
      → Counted l.table l.holders
      → Reach svc l (record { table = t; holders = xs ++ i ∷ ys; other = s })
      → (f : File) × (t' : List File) × (get_elem? t i ≡ some f)
        × (fileclose svc i t s ≡ some (t', if held i (xs ++ ys) == 0 then shut_down svc f s else s))
  fileclose-last {l} {t} {s} i xs ys v r =
      let (f, t', g, e, c) = fileclose-held t i xs ys (Reach-Counted r v) svc s in (f, t', g, e)

  -- From a table whose counts are the references held, after any sequence of successful filealloc,
  -- of filedup and fileclose of held references, and of steps that keep the counts, filealloc gives
  -- out only a slot to which no reference is held, and changes the count of no other slot.
  pub filealloc-fresh :
      {l : Ledger F} {t : List File} {hs : List ℕ} {s : F} (i : ℕ)
      → Counted l.table l.holders
      → Reach svc l (record { table = t; holders = hs; other = s })
      → (filealloc t).0 ≡ some i
      → (held i hs ≡ 0) × ((j : ℕ) → j ≢ i → refs (filealloc t).1 j ≡ refs t j)
  filealloc-fresh {l} {t} {hs} i v r e =
      let (zero_i, counts) = Taken-filealloc t i e in
      let counted : refs t i ≡ held i hs = Reach-Counted r v i in
      (omega arith, λ j ne. ground (arith, counts j))

  -- From a table whose counts are the references held, after any sequence of successful filealloc,
  -- of filedup and fileclose of held references, and of steps that keep the counts, filedup of a
  -- held reference does not panic, and the counts are then the references held with the new one.
  pub filedup-shared :
      {l : Ledger F} {t : List File} {s : F} (i : ℕ) (xs ys : List ℕ)
      → Counted l.table l.holders
      → Reach svc l (record { table = t; holders = xs ++ i ∷ ys; other = s })
      → (t' : List File) × (filedup i t ≡ some t') × Counted t' (i ∷ xs ++ i ∷ ys)
  filedup-shared {l} {t} i xs ys v r = filedup-held t i xs ys (Reach-Counted r v)
