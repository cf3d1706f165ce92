-- ===== src/Dir/Tests.antt =====
-- A directory of three entries, and the witness of the property.
use operating_systems_cs.Base.{
  ℕ, ◌≡◌, refl, true, false, Bool, some, [], arith, ◌==◌, ◌∷◌, if◌then◌else◌,
}
use operating_systems_cs.Bytes.{strncmp}
use operating_systems_cs.Content.Blocks.{IsLaid}
use operating_systems_cs.Content.{Memory}
use operating_systems_cs.Dir.Search.{search, outcome, dirlookup-search}
use operating_systems_cs.Dir.{dirlookup}
use operating_systems_cs.Fs.{Disk, Superblock}
use operating_systems_cs.Inode.{Inode, t_dir}

abbrev sb : Superblock
sb = record { size = 100; ninodes = 50; inodestart = 32; bmapstart = 58 }

-- Block 20 has the entries `a` with number 7, an empty one, and `b` with number 9.
abbrev block : ℕ → ℕ
block i =
    if i == 0 then 7 else if i == 2 then 97 else if i == 32 then 9 else if i == 34 then 98 else 0

abbrev disk : Disk
disk = record { blocks = λ b. block; logged = [] }

-- The name `b` stands at 100.
abbrev memory : Memory
memory a = if a == 100 then 98 else 0

abbrev no_drivers : ℕ → Bool
no_drivers n = false

abbrev dir : Inode
dir = record {
  dev = 1;
  inum = 1;
  ref = 1;
  valid = true;
  busy = false;
  locked = true;
  type = t_dir;
  major = 0;
  minor = 0;
  nlink = 1;
  size = 48;
  addrs = λ i. if i == 0 then 20 else 0;
}

abbrev free_entry : Inode
free_entry = record dir { ref = 0 }

dir-IsLaid : IsLaid 1 dir disk
dir-IsLaid = record {
  mapped = λ bn lt. record {
    nonzero = ground arith;
    indirect = λ h. absurd (omega arith);
    within = omega arith;
  };
  distinct = λ bn bm l k e. omega arith;
  apart = λ bn bm l k g. absurd (omega arith);
}

finds_b : search 3 dir disk 100 0 memory ≡ some (32, 9)
unfolding search strncmp
finds_b = refl

dirlookup-search_example :
    let (r, l) = dirlookup sb no_drivers dir 100 disk memory (free_entry ∷ []) in
    (r ≡ outcome dir (free_entry ∷ []) (search 3 dir disk 100 0 memory))
    × (l.ip ≡ dir)
    × (l.disk ≡ disk)
dirlookup-search_example =
    dirlookup-search sb no_drivers 1 dir disk 100 (free_entry ∷ []) 3 memory refl dir-IsLaid
      (omega arith) (omega arith) (omega arith)
