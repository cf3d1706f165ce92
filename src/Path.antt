-- ===== src/Path.antt =====
-- fs.c: `skipelem`, which takes a path apart, and the loop of `namex` that calls it. A path is the list
-- of its bytes up to the zero byte.
pub mod Names
pub mod Walk
mod Tests
use operating_systems_cs.Base.{
  ℕ, zero, suc, ◌+◌, ◌-◌, Bool, true, false, not, ◌&&◌, Option, none, some, List, [], ◌∷◌, ◌++◌,
  leb, ◌==◌, if◌then◌else◌,
}
use operating_systems_cs.Base.Lists.{length, take, drop}

abbrev pub dirsiz : ℕ
dirsiz = 14

-- `'/'`
abbrev pub slash : ℕ
slash = 47

pub skip_slashes : List ℕ → List ℕ
skip_slashes [] = []
skip_slashes (b ∷ bs) = let rest = skip_slashes bs in if b == slash then rest else b ∷ bs

-- The bytes up to the next slash, and what is left.
pub split_elem : List ℕ → List ℕ × List ℕ
split_elem [] = ([], [])
split_elem (b ∷ bs) =
    let rest = split_elem bs in if b == slash then ([], b ∷ bs) else (b ∷ rest.0, rest.1)

-- What is in the buffer `name` after an element is copied to it.
abbrev pub copy_name : List ℕ → List ℕ → List ℕ
copy_name s name =
    if leb dirsiz (length s)
    then take dirsiz s ++ drop dirsiz name
    else s ++ 0 ∷ drop (length s + 1) name

-- The buffer and the rest of the path; `none` for a NULL pointer.
pub skipelem : List ℕ → List ℕ → Option (List ℕ × List ℕ)
unfolding skip_slashes split_elem
skipelem path name = elim (skip_slashes path) [
  | [] ↦ none
  | b ∷ bs ↦ some (copy_name (split_elem (b ∷ bs)).0 name, skip_slashes (split_elem (b ∷ bs)).1)
]

-- What `namex` calls in the rest of fs.c, over a state `F`. Pointers are numbers, 0 is NULL.
pub record Inodes (F : Type 0) : Type 0 where
  pub iget_root : F → ℕ × F
  pub idup_cwd : F → ℕ × F
  pub ilock : ℕ → F → F
  pub iunlock : ℕ → F → F
  pub iput : ℕ → F → F
  pub is_dir : ℕ → F → Bool
  pub dirlookup : (dp : ℕ) (name : List ℕ) → F → ℕ × F

-- What `namex` returns, with the buffer `name`.
pub data Result : Type 0 where
  inode : (ip : ℕ) (name : List ℕ) → Result
  null : Result
  out_of_fuel : Result

abbrev pub is_end : List ℕ → Bool
is_end [] = true
is_end _ = false

abbrev pub is_absolute : List ℕ → Bool
is_absolute [] = false
is_absolute (b ∷ bs) = b == slash

module _ {F : Type 0} (fs : Inodes F) (parent : Bool) where
  -- No element is left.
  abbrev pub arrive : (name : List ℕ) (ip : ℕ) → F → Result × F
  arrive name ip s = if parent then (null, fs.iput ip s) else (inode ip name, s)

  -- The body of the loop for the element in `name`, which is the last one or not.
  abbrev pub visit :
      (last : Bool) (name : List ℕ) (ip : ℕ) → F → (rest : ℕ → F → Result × F) → Result × F
  visit last name ip s rest =
      let s = fs.ilock ip s in
      let (next, s') = fs.dirlookup ip name s in
      if not (fs.is_dir ip s)
      then (null, fs.iput ip (fs.iunlock ip s))
      else if parent && last
      then (inode ip name, fs.iunlock ip s)
      else if next == 0
      then (null, fs.iput ip (fs.iunlock ip s'))
      else rest next (fs.iput ip (fs.iunlock ip s'))

  pub namex_loop : (fuel : ℕ) (path name : List ℕ) (ip : ℕ) → F → Result × F
  unfolding skipelem
  namex_loop zero path name ip s = (out_of_fuel, s)
  namex_loop (suc fuel) path name ip s = elim (skipelem path name) [
    | none ↦ arrive name ip s
    | some (name', path') ↦
        visit (is_end path') name' ip s (λ next. namex_loop fuel path' name' next)
  ]

  -- Each round takes a byte of the path at least.
  pub namex : (path name : List ℕ) → F → Result × F
  unfolding namex_loop
  namex path name s =
      let (ip, s') = if is_absolute path then fs.iget_root s else fs.idup_cwd s in
      namex_loop (length path + 1) path name ip s'
