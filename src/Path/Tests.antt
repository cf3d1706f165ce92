-- ===== src/Path/Tests.antt =====
-- A small tree of inodes, and the witnesses of the properties.
use operating_systems_cs.Base.{ℕ, ◌+◌, ◌*◌, ◌≡◌, refl, true, false, List, [], ◌∷◌, arith, ltb}
use operating_systems_cs.Path.{Inodes, inode, null, namex}
use operating_systems_cs.Path.Names.{Spells}
use operating_systems_cs.Path.Walk.{walk, namex-walk}

-- The root is inode 1, a directory's only entry has its number times 10, and files are above 50.
abbrev fs : Inodes ℕ
fs = record {
  iget_root = λ s. (1, s + 1);
  idup_cwd = λ s. (3, s + 1);
  ilock = λ ip s. s;
  iunlock = λ ip s. s;
  iput = λ ip s. s + 100;
  is_dir = λ ip s. ltb ip 50;
  dirlookup = λ dp name s. (dp * 10, s + 1);
}

-- `//ab/c/`
abbrev path : List ℕ
path = 47 ∷ 47 ∷ 97 ∷ 98 ∷ 47 ∷ 99 ∷ 47 ∷ []

abbrev names : List (List ℕ)
names = (97 ∷ 98 ∷ []) ∷ (99 ∷ []) ∷ []

path-Spells : Spells names path
path-Spells = (
  2,
  47 ∷ 99 ∷ 47 ∷ [],
  refl,
  (omega arith, omega arith, (omega arith, omega arith, tt)),
  omega arith,
  refl,
  (1, 47 ∷ [], refl, (omega arith, omega arith, tt), omega arith, refl, (1, refl)),
)

finds : (namex fs false path [] 0).0 ≡ inode 100 (99 ∷ 0 ∷ 0 ∷ [])
unfolding namex
finds = refl

finds_parent : (namex fs true path [] 0).0 ≡ inode 10 (99 ∷ 0 ∷ 0 ∷ [])
unfolding namex
finds_parent = refl

no_parent : (namex fs true (47 ∷ []) [] 0).0 ≡ null
unfolding namex
no_parent = refl

namex-walk_example : namex fs true path [] 0 ≡ walk fs true names [] 1 1
namex-walk_example = namex-walk fs true names path [] 0 path-Spells
