-- ===== src/Path/Names.antt =====
-- What `skipelem` finds in a path that is made of names.
use operating_systems_cs.Base.{
  ℕ, zero, suc, ◌<◌, ◌≤◌, ◌≡◌, ◌≢◌, refl, ◌∙◌, true, false, none, some, List, [], ◌∷◌, ◌++◌, arith,
  ==_ne,
}
use operating_systems_cs.Base.Lists.{length, length-append}
use operating_systems_cs.Path.{slash, skip_slashes, split_elem, copy_name, skipelem, is_end}

-- Bytes without a slash or a zero.
abbrev pub IsName : List ℕ → Type 0
IsName [] = Unit
IsName (b ∷ bs) = (b ≢ slash) × (b ≢ 0) × IsName bs

abbrev pub slashes : ℕ → List ℕ
slashes zero = []
slashes (suc n) = slash ∷ slashes n

abbrev pub Breaks : List ℕ → Type 0
Breaks [] = Unit
Breaks (b ∷ bs) = b ≡ slash

-- The path spells the names: slashes, a name, and so on; slashes may follow the last one.
abbrev pub Spells : List (List ℕ) → List ℕ → Type 0
Spells [] path = (n : ℕ) × (path ≡ slashes n)
Spells (s ∷ ss) path =
    (n : ℕ) × (rest : List ℕ) × (path ≡ slashes n ++ s ++ rest)
    × IsName s
    × (0 < length s)
    × Breaks rest
    × Spells ss rest

skip_slashes-slashes : (n : ℕ) → skip_slashes (slashes n) ≡ []
unfolding skip_slashes
skip_slashes-slashes zero = refl
skip_slashes-slashes (suc n) = skip_slashes-slashes n

skip_slashes-name :
    (n : ℕ) (s rest : List ℕ)
    → IsName s
    → 0 < length s
    → skip_slashes (slashes n ++ s ++ rest) ≡ s ++ rest
unfolding skip_slashes
skip_slashes-name n [] rest h l = absurd (omega arith)
skip_slashes-name zero (b ∷ s) rest (h, z, k) l = rw (==_ne b slash h) refl
skip_slashes-name (suc n) (b ∷ s) rest h l = skip_slashes-name n (b ∷ s) rest h l

split_elem-name : (s rest : List ℕ) → IsName s → Breaks rest → split_elem (s ++ rest) ≡ (s, rest)
unfolding split_elem
split_elem-name [] [] h b = refl
split_elem-name [] (c ∷ rest) h b = rw b refl
split_elem-name (c ∷ s) rest (h, z, k) b = rw (==_ne c slash h, split_elem-name s rest k b) refl

-- The slashes in front do not matter.
pub Spells-skip_slashes :
    (ss : List (List ℕ)) (path : List ℕ) → Spells ss path → Spells ss (skip_slashes path)
Spells-skip_slashes [] path (n, e) = (0, rw e (skip_slashes-slashes n))
Spells-skip_slashes (s ∷ ss) path (n, rest, e, name, l, b, more) =
    (0, rest, rw e (skip_slashes-name n s rest name l), name, l, b, more)

pub skipelem-end : (path name : List ℕ) → Spells [] path → skipelem path name ≡ none
unfolding skipelem
skipelem-end path name (n, e) = rw (skipelem, e, skip_slashes-slashes n) refl

skipelem-cons :
    (path name : List ℕ) (b : ℕ) (bs : List ℕ)
    → skip_slashes path ≡ b ∷ bs
    → skipelem path name
      ≡ some (copy_name (split_elem (b ∷ bs)).0 name, skip_slashes (split_elem (b ∷ bs)).1)
unfolding skipelem
skipelem-cons path name b bs e = rw (skipelem, e) refl

shorter_rest :
    (n : ℕ) (s rest : List ℕ) → 0 < length s → length rest < length (slashes n ++ s ++ rest)
shorter_rest n s rest l =
    omega (arith, length-append (slashes n ++ s) rest, length-append (slashes n) s)

-- On a path that spells a name and then others, skipelem leaves that name, cut off at DIRSIZ bytes
-- or ended by a zero byte, in the buffer, and returns a rest of the path less the slashes in front
-- of it; that rest is shorter than the path and spells the other names.
pub skipelem-next :
    (s : List ℕ) (ss : List (List ℕ)) (path name : List ℕ)
    → Spells (s ∷ ss) path
    → (rest : List ℕ) × (skipelem path name ≡ some (copy_name s name, skip_slashes rest))
      × Spells ss rest
      × (length rest < length path)
skipelem-next [] ss path name (n, rest, e, h, l, b, more) = absurd (omega arith)
skipelem-next (c ∷ s) ss path name (n, rest, e, h, l, b, more) =
    let front : skip_slashes path ≡ c ∷ s ++ rest = rw e (skip_slashes-name n (c ∷ s) rest h l) in
    let split : split_elem (c ∷ s ++ rest) ≡ (c ∷ s, rest) = split_elem-name (c ∷ s) rest h b in
    (
      rest,
      skipelem-cons path name c (s ++ rest) front ∙ rw split refl,
      more,
      rw e (shorter_rest n (c ∷ s) rest l),
    )

pub length-skip_slashes : (path : List ℕ) → length (skip_slashes path) ≤ length path
unfolding skip_slashes
length-skip_slashes [] = omega arith
length-skip_slashes (b ∷ path) = ground (arith, length-skip_slashes path)

pub is_end-Spells :
    (ss : List (List ℕ)) (path : List ℕ)
    → Spells ss path
    → is_end (skip_slashes path) ≡ elim ss [ [] ↦ true | s ∷ ss' ↦ false ]
is_end-Spells [] path (n, e) = rw (e, skip_slashes-slashes n) refl
is_end-Spells (s ∷ ss) path (n, rest, e, name, l, b, more) =
    rw e (rw (skip_slashes-name n s rest name l) (nonempty s rest l))
  where
    nonempty : (s rest : List ℕ) → 0 < length s → is_end (s ++ rest) ≡ false
    nonempty [] rest l = absurd (omega arith)
    nonempty (c ∷ s) rest l = refl
