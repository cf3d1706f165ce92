-- ===== src/Content/Tests.antt =====
-- A small file, a file of two blocks, and the witnesses of the properties.
use operating_systems_cs.Base.{
  ℕ, ◌+◌, ◌*◌, ◌≤◌, ◌<◌, ◌≡◌, refl, true, false, [], arith, Bool, ◌==◌, if◌then◌else◌, ◌⊎◌,
}
use operating_systems_cs.Content.Blocks.{byte_at, IsLaid}
use operating_systems_cs.Content.Read.{readi_blocks}
use operating_systems_cs.Content.Small.{IsSmall, writei-IsSmall, readi-writei_small}
use operating_systems_cs.Content.Write.{overwritten, writei_blocks}
use operating_systems_cs.Content.{Memory, count, left, readi, writei}
use operating_systems_cs.Fs.{Disk, Superblock}
use operating_systems_cs.Inode.Layout.{Fits}
use operating_systems_cs.Inode.{Inode, t_sfile, iupdate, read_inode}

abbrev sb : Superblock
sb = record { size = 100; ninodes = 50; inodestart = 32; bmapstart = 58 }

abbrev disk : Disk
disk = record { blocks = λ b i. b + i; logged = [] }

abbrev memory : Memory
memory = λ a. a * 2

abbrev no_drivers : ℕ → Bool
no_drivers n = false

abbrev small : Inode
small = record {
  dev = 1;
  inum = 11;
  ref = 1;
  valid = true;
  busy = false;
  locked = true;
  type = t_sfile;
  major = 0;
  minor = 0;
  nlink = 1;
  size = 40;
  addrs = λ i. i + 1;
}

small-IsSmall : IsSmall small
small-IsSmall = record { type = refl; fits = omega arith }

small-Fits : Fits small
small-Fits = record {
  type = omega arith;
  major = omega arith;
  minor = omega arith;
  nlink = omega arith;
  size = omega arith;
}

-- A write of 20 bytes at 40 stores the 12 that fit.
writei-IsSmall_example :
    let (r, l) = writei sb no_drivers small 100 40 20 disk memory in
    (r ≡ count 12)
    × IsSmall l.ip
    × (40 ≤ l.ip.size)
    × (52 ≤ l.ip.size)
    × ((i : ℕ) → i < 12 → l.ip.addrs (40 + i) ≡ memory (100 + i))
    × ((i : ℕ) → (i < 40) ⊎ (52 ≤ i) → l.ip.addrs i ≡ i + 1)
    × (l.disk ≡ iupdate sb l.ip disk)
writei-IsSmall_example =
    writei-IsSmall sb no_drivers small 100 40 20 disk memory small-IsSmall (omega arith)
      (omega arith)

readi-writei_small_example :
    let (r, l) = writei sb no_drivers small 100 40 20 disk memory in
    let back = read_inode sb (record small { size = 0 }) l.disk in
    let (r', l') = readi sb no_drivers back 500 40 12 l.disk memory in
    (r' ≡ r) × ((i : ℕ) → i < 12 → l'.mem (500 + i) ≡ memory (100 + i))
readi-writei_small_example =
    readi-writei_small sb no_drivers small (record small { size = 0 }) 100 500 40 20 disk memory
      memory small-IsSmall small-Fits (omega arith) (omega arith) refl

-- Its blocks are 20 and 21, and its size is 1000.
abbrev large : Inode
large = record small {
  type = 2;
  size = 1000;
  addrs = λ i. if i == 0 then 20 else if i == 4 then 21 else 0;
}

large-IsLaid : IsLaid 2 large disk
large-IsLaid = record {
  mapped = λ bn lt. record {
    nonzero = ground arith;
    indirect = λ h. absurd (omega arith);
    within = omega arith;
  };
  distinct = λ bn bm l k e. ground arith;
  apart = λ bn bm l k g. absurd (omega arith);
}

-- A read of 600 bytes at 500 gets 500 bytes, from both blocks.
readi_blocks_example :
    (mem' : Memory) × (readi sb no_drivers large 3000 500 600 disk memory
      ≡ (count 500, left large disk mem'))
    × ((i : ℕ) → i < 500 → mem' (3000 + i) ≡ byte_at large disk (500 + i))
    × ((a : ℕ) → (a < 3000) ⊎ (3500 ≤ a) → mem' a ≡ memory a)
readi_blocks_example =
    readi_blocks sb 2 no_drivers large 3000 500 600 disk memory (λ e. absurd (omega (arith, e)))
      (λ e. absurd (omega (arith, e))) large-IsLaid (omega arith) (omega arith) (omega arith)
      (omega arith)

writei_blocks_example :
    (d' : Disk) × (writei sb no_drivers large 3000 500 100 disk memory
      ≡ (count 100, left large d' memory))
    × IsLaid 2 large d'
    × ((pos : ℕ)
        → pos < 1024
        → byte_at large d' pos ≡ overwritten sb 2 large disk 3000 500 100 memory pos)
writei_blocks_example =
    writei_blocks sb 2 no_drivers large 3000 500 100 disk memory (λ e. absurd (omega (arith, e)))
      (λ e. absurd (omega (arith, e))) large-IsLaid (omega arith) (omega arith) (omega arith)
