-- ===== src/Path/Walk.antt =====
-- `namex` goes from inode to inode along the names of the path.
use operating_systems_cs.Base.{
  ℕ, zero, suc, ◌+◌, ◌<◌, ◌≡◌, refl, Bool, true, false, List, [], ◌∷◌, arith, if◌then◌else◌,
}
use operating_systems_cs.Base.Lists.{length}
use operating_systems_cs.Path.{
  skip_slashes, copy_name, Inodes, Result, is_absolute, arrive, visit, namex_loop, namex,
}
use operating_systems_cs.Path.Names.{
  Spells, Spells-skip_slashes, skipelem-end, skipelem-next, length-skip_slashes, is_end-Spells,
}

abbrev pub is_last : List (List ℕ) → Bool
is_last [] = true
is_last _ = false

module _ {F : Type 0} (fs : Inodes F) (parent : Bool) where
  -- The walk along a list of names.
  abbrev pub walk : (names : List (List ℕ)) (name : List ℕ) (ip : ℕ) → F → Result × F
  walk [] name ip s = arrive fs parent name ip s
  walk (n ∷ names) name ip s =
      visit fs parent (is_last names) (copy_name n name) ip s
        (λ next s'. walk names (copy_name n name) next s')

  visit-rest :
      (last : Bool) (name : List ℕ) (ip : ℕ) (s : F) (f g : ℕ → F → Result × F)
      → ((next : ℕ) (s' : F) → f next s' ≡ g next s')
      → visit fs parent last name ip s f ≡ visit fs parent last name ip s g
  visit-rest last name ip s f g h =
      rw
        (h (fs.dirlookup ip name (fs.ilock ip s)).0
          (fs.iput ip (fs.iunlock ip (fs.dirlookup ip name (fs.ilock ip s)).1)))
        refl

  namex_loop-walk :
      (fuel : ℕ) (names : List (List ℕ)) (path name : List ℕ) (ip : ℕ) (s : F)
      → Spells names path
      → length path < fuel
      → namex_loop fs parent fuel path name ip s ≡ walk names name ip s
  unfolding namex_loop
  namex_loop-walk zero names path name ip s h l = absurd (omega arith)
  namex_loop-walk (suc fuel) [] path name ip s h l = rw (namex_loop, skipelem-end path name h) refl
  namex_loop-walk (suc fuel) (n ∷ names) path name ip s h l =
      let (rest, e, more, less) = skipelem-next n names path name h in
      let shorter : length (skip_slashes rest) < fuel = omega (arith, length-skip_slashes rest) in
      rw (namex_loop, e, is_end-Spells names rest more)
        (visit-rest (is_last names) (copy_name n name) ip s
          (λ next s'. namex_loop fs parent fuel (skip_slashes rest) (copy_name n name) next s')
          (λ next s'. walk names (copy_name n name) next s')
          (λ next s'.
            namex_loop-walk fuel names (skip_slashes rest) (copy_name n name) next s'
              (Spells-skip_slashes names rest more) shorter))

  -- On a path that spells a list of names, with any number of slashes before, between and after
  -- them, namex, which has rounds enough, starts at the root exactly for a path that begins with a
  -- slash and does what a walk from inode to inode along the names does, also where it is to stop
  -- at the parent of the last one.
  pub namex-walk :
      (names : List (List ℕ)) (path name : List ℕ) (s : F)
      → Spells names path
      → namex fs parent path name s ≡ (
          let (ip, s') = if is_absolute path then fs.iget_root s else fs.idup_cwd s in
          walk names name ip s')
  unfolding namex
  namex-walk names path name s h =
      let (ip, s') = if is_absolute path then fs.iget_root s else fs.idup_cwd s in
      namex_loop-walk (length path + 1) names path name ip s' h (omega arith)
