-- ===== src/Icache/Tests.antt =====
-- A cache of three entries, and the witnesses of the properties.
use operating_systems_cs.Base.{
  ℕ, zero, suc, ◌<◌, ◌≡◌, ◌≢◌, ◌==◌, ◌&&◌, if◌then◌else◌, refl, true, false, List, [], ◌∷◌, some,
  arith, not_both,
}
use operating_systems_cs.Base.Lists.{set}
use operating_systems_cs.Fs.{Disk, Superblock}
use operating_systems_cs.Icache.Alloc.{type_on_disk, blank_inode, ialloc_lem}
use operating_systems_cs.Icache.{ialloc_from, ialloc, is_for, iget, put, iput}
use operating_systems_cs.Icache.Unique.{IsUnique, Holds, iget-Holds}
use operating_systems_cs.Icache.Release.{left_over, iput_small}
use operating_systems_cs.Inode.{Inode, t_sfile, iblock, read_inode}
use operating_systems_cs.Inode.Layout.{Fits, Agree}

abbrev sb : Superblock
sb = record { size = 100; ninodes = 50; inodestart = 32; bmapstart = 58 }

abbrev disk : Disk
disk = record { blocks = λ b i. 0; logged = [] }

-- An entry with this number and count.
abbrev entry : (inum ref nlink : ℕ) → Inode
entry inum ref nlink = record {
  dev = 1;
  inum = inum;
  ref = ref;
  valid = true;
  busy = false;
  locked = false;
  type = t_sfile;
  major = 0;
  minor = 0;
  nlink = nlink;
  size = 5;
  addrs = λ i. i;
}

-- The last entry is free, and keeps the number of the first.
abbrev cache : List Inode
cache = entry 11 2 1 ∷ entry 12 1 0 ∷ entry 11 0 1 ∷ []

same_entry : {a b : Inode} → some a ≡ some b → a ≡ b
same_entry h = cc

-- Two entries for different inodes.
different :
    (e f a b : Inode) (i j : ℕ)
    → some e ≡ some a
    → some f ≡ some b
    → is_for e.dev e.inum f ≡ false
    → is_for a.dev a.inum b ≡ true
    → i ≡ j
different e f a b i j ha hb ne m = absurd (not_both m (rw (← same_entry ha, ← same_entry hb) ne))

cache-IsUnique : IsUnique cache
cache-IsUnique zero zero a b ha hb p m = refl
cache-IsUnique zero (suc zero) a b ha hb p m =
    different (entry 11 2 1) (entry 12 1 0) a b 0 1 ha hb refl m
cache-IsUnique zero (suc (suc zero)) a b ha hb p m =
    different (entry 11 2 1) (entry 11 0 1) a b 0 2 ha hb refl m
cache-IsUnique zero (suc (suc (suc j))) a b ha hb p m = cc
cache-IsUnique (suc zero) zero a b ha hb p m =
    different (entry 12 1 0) (entry 11 2 1) a b 1 0 ha hb refl m
cache-IsUnique (suc zero) (suc zero) a b ha hb p m = refl
cache-IsUnique (suc zero) (suc (suc zero)) a b ha hb p m =
    different (entry 12 1 0) (entry 11 0 1) a b 1 2 ha hb refl m
cache-IsUnique (suc zero) (suc (suc (suc j))) a b ha hb p m = cc
cache-IsUnique (suc (suc zero)) j a b ha hb p m = absurd (no_reference (rw (← same_entry ha) at p))
  where
    no_reference : 0 < 0 → ⊥
    no_reference h = omega arith
cache-IsUnique (suc (suc (suc i))) j a b ha hb p m = cc

finds_12 : iget 1 12 cache ≡ some (1, entry 11 2 1 ∷ entry 12 2 0 ∷ entry 11 0 1 ∷ [])
unfolding iget
finds_12 = refl

recycles : (t : List Inode) × (iget 1 13 cache ≡ some (2, t))
unfolding iget
recycles = (_, refl)

iget-Holds_example : Holds 1 13 2 cache recycles.0
iget-Holds_example = iget-Holds 1 13 2 cache recycles.0 cache-IsUnique recycles.1

unlinked-Fits : Fits (entry 12 1 0)
unlinked-Fits = record {
  type = omega arith;
  major = omega arith;
  minor = omega arith;
  nlink = omega arith;
  size = omega arith;
}

iput_small_example :
    (d' : Disk) × (iput sb 1 cache disk ≡ put (set cache 1 (left_over sb (entry 12 1 0))) d')
    × ((jp : Inode) → jp.inum ≡ 12 → (read_inode sb jp d').type ≡ 0)
    × ((b : ℕ) → b ≢ iblock sb 12 → d'.blocks b ≡ disk.blocks b)
iput_small_example =
    iput_small sb 1 cache disk (entry 12 1 0) refl unlinked-Fits refl refl refl refl refl

-- Inode 1 is a directory, all others are free.
abbrev image : Disk
image = record { blocks = λ b i. if (b == 32) && (i == 64) then 1 else 0; logged = [] }

allocates :
    (r : ℕ × List Inode × Disk) × (ialloc sb 1 4 image cache ≡ some r)
    × (iget 1 2 cache ≡ some (2, r.1))
unfolding ialloc ialloc_from iget
allocates = (_, refl, refl)

ialloc_lem_example :
    (n : ℕ) × (0 < n)
    × (n < 50)
    × (type_on_disk sb image n ≡ 0)
    × ((m : ℕ) → 0 < m → m < n → type_on_disk sb image m ≢ 0)
    × (iget 1 n cache ≡ some (allocates.0.0, allocates.0.1))
    × ((jp : Inode) → jp.inum ≡ n → Agree (read_inode sb jp allocates.0.2) (blank_inode n 4))
    × ((jp : Inode) → jp.inum ≢ n → Agree (read_inode sb jp allocates.0.2) (read_inode sb jp image))
ialloc_lem_example =
    ialloc_lem sb 1 4 allocates.0.0 image allocates.0.2 cache allocates.0.1 (omega arith)
      allocates.1
