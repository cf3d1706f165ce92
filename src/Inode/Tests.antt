-- ===== src/Inode/Tests.antt =====
-- Two inodes on a disk, and the witnesses of the properties.
use operating_systems_cs.Base.{ℕ, ◌≡◌, refl, true, false, [], ◌+◌, arith}
use operating_systems_cs.Fs.{Disk, Superblock}
use operating_systems_cs.Inode.{Inode, t_sfile, iupdate, read_inode}
use operating_systems_cs.Inode.Layout.{Fits, Agree, read_inode-iupdate}

abbrev sb : Superblock
sb = record { size = 100; ninodes = 50; inodestart = 32; bmapstart = 58 }

abbrev disk : Disk
disk = record { blocks = λ b i. 0; logged = [] }

abbrev small : Inode
small = record {
  dev = 1;
  inum = 11;
  ref = 1;
  valid = true;
  busy = false;
  locked = true;
  type = t_sfile;
  major = 0;
  minor = 0;
  nlink = 1;
  size = 300;
  addrs = λ i. i + 1;
}

abbrev entry : ℕ → Inode
entry n = record small { inum = n; valid = false; size = 0; addrs = λ i. 0 }

small-Fits : Fits small
small-Fits = record {
  type = omega arith;
  major = omega arith;
  minor = omega arith;
  nlink = omega arith;
  size = omega arith;
}

reads_size : (read_inode sb (entry 11) (iupdate sb small disk)).size ≡ 300
unfolding read_inode iupdate
reads_size = refl

read_inode-iupdate_example : Agree (read_inode sb (entry 11) (iupdate sb small disk)) small
read_inode-iupdate_example = read_inode-iupdate sb small (entry 11) disk small-Fits refl
