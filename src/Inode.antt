-- ===== src/Inode.antt =====
-- fs.c: inodes in memory and on the disk, and the blocks of their content.
mod Tests
pub mod Layout
pub mod Map
use operating_systems_cs.Base.{
  ℕ, zero, suc, ◌+◌, ◌-◌, ◌*◌, ◌/◌, ◌%◌, ◌^◌, Bool, true, false, not, ◌&&◌, Option, none, some, ltb,
  leb, ◌==◌, if◌then◌else◌, update,
}
use operating_systems_cs.Fs.{Block, Disk, bread, log_write, Superblock, balloc, bfree}

-- `struct inode` without its locks. `addrs` are the 52 bytes of the array, 13 words of block numbers
-- or the content of a small file.
pub record Inode : Type 0 where
  pub dev : ℕ
  pub inum : ℕ
  pub ref : ℕ
  pub valid : Bool
  pub busy : Bool
  pub locked : Bool
  pub type : ℕ
  pub major : ℕ
  pub minor : ℕ
  pub nlink : ℕ
  pub size : ℕ
  pub addrs : ℕ → ℕ

abbrev pub t_dir : ℕ
t_dir = 1

abbrev pub t_dev : ℕ
t_dev = 3

abbrev pub t_sfile : ℕ
t_sfile = 4

-- Little-endian numbers among bytes.
abbrev pub get16 : (ℕ → ℕ) → ℕ → ℕ
get16 v p = v p + v (p + 1) * 256

abbrev pub put16 : (ℕ → ℕ) → ℕ → ℕ → ℕ → ℕ
put16 v p w = update (update v p (w % 256)) (p + 1) (w / 256 % 256)

abbrev pub get32 : (ℕ → ℕ) → ℕ → ℕ
get32 v p = v p + v (p + 1) * 256 + v (p + 2) * 65536 + v (p + 3) * 16777216

abbrev pub put32 : (ℕ → ℕ) → ℕ → ℕ → ℕ → ℕ
put32 v p w =
    update
      (update (update (update v p (w % 256)) (p + 1) (w / 256 % 256)) (p + 2) (w / 65536 % 256))
      (p + 3) (w / 16777216 % 256)

-- `memmove` of `n` bytes to place `p` of another object.
abbrev pub paste : (p n : ℕ) (src v : ℕ → ℕ) → ℕ → ℕ
paste p n src v i = if leb p i && ltb i (p + n) then src (i - p) else v i

-- `sizeof(struct dinode)` is 64, with `addrs` from byte 12 on.
abbrev pub ipb : ℕ
ipb = 8

abbrev pub iblock : Superblock → ℕ → ℕ
iblock sb i = i / ipb + sb.inodestart

-- Where inode `i` stands in its block.
abbrev pub dinode_at : ℕ → ℕ
dinode_at i = (i % ipb) * 64

unfoldable pub store_dinode : Inode → (p : ℕ) → Block → Block
store_dinode ip p v = paste (p + 12) 52 ip.addrs (
    put32
      (put16 (put16 (put16 (put16 v p ip.type) (p + 2) ip.major) (p + 4) ip.minor) (p + 6) ip.nlink)
      (p + 8) ip.size)

pub load_dinode : Block → (p : ℕ) → Inode → Inode
load_dinode v p ip = record ip {
  type = get16 v p;
  major = get16 v (p + 2);
  minor = get16 v (p + 4);
  nlink = get16 v (p + 6);
  size = get32 v (p + 8);
  addrs = paste 0 52 (λ i. v (p + 12 + i)) ip.addrs;
}

module _ (sb : Superblock) where
  unfoldable pub iupdate : Inode → Disk → Disk
  unfolding store_dinode
  iupdate ip d =
      let b = iblock sb ip.inum in log_write b (store_dinode ip (dinode_at ip.inum) (bread b d)) d

  -- What `ilock` reads into an inode that is not valid.
  pub read_inode : Inode → Disk → Inode
  unfolding load_dinode
  read_inode ip d = record (load_dinode (bread (iblock sb ip.inum) d) (dinode_at ip.inum) ip) {
    valid = true;
  }

abbrev pub ndirect : ℕ
ndirect = 12

abbrev pub nindirect : ℕ
nindirect = 128

-- `ip->addrs[i]` and an assignment to it.
abbrev pub addr_of : Inode → ℕ → ℕ
addr_of ip i = get32 ip.addrs (i * 4)

abbrev pub set_addr : ℕ → ℕ → Inode → Inode
set_addr i a ip = record ip { addrs = put32 ip.addrs (i * 4) a }

module _ (sb : Superblock) where
  -- Word `i` of `addrs`, with a new block if it is 0; `none` where it panics, here and below.
  pub direct_block : ℕ → Inode → Disk → Option (ℕ × Inode × Disk)
  direct_block i ip d =
      if addr_of ip i == 0
      then elim (balloc sb d) [ none ↦ none | some (a, d') ↦ some (a, set_addr i a ip, d') ]
      else some (addr_of ip i, ip, d)

  -- Word `i` of the indirect block `b`. The buffer is read before `balloc` and written after it.
  pub indirect_block : (b i : ℕ) → Disk → Option (ℕ × Disk)
  indirect_block b i d =
      let v = bread b d in
      if get32 v (i * 4) == 0
      then elim (balloc sb d) [
        | none ↦ none
        | some (a, d') ↦ some (a, log_write b (put32 v (i * 4) a) d')
      ]
      else some (get32 v (i * 4), d)

  pub bmap : Inode → ℕ → Disk → Option (ℕ × Inode × Disk)
  unfolding direct_block indirect_block
  bmap ip bn d =
      if ltb bn ndirect
      then direct_block bn ip d
      else if ltb (bn - ndirect) nindirect
      then elim (direct_block ndirect ip d) [
        | none ↦ none
        | some (b, ip', d') ↦ elim (indirect_block b (bn - ndirect) d') [
          | none ↦ none
          | some (a, d'') ↦ some (a, ip', d'')
        ]
      ]
      else none

  -- The loop of `itrunc` over the direct blocks from `i` on, with the rounds that are left.
  pub trunc_direct : (rounds i : ℕ) → Inode → Disk → Option (Inode × Disk)
  trunc_direct zero i ip d = some (ip, d)
  trunc_direct (suc rounds) i ip d =
      let rest = trunc_direct rounds (i + 1) ip d in
      if addr_of ip i == 0 then rest else elim (bfree sb (addr_of ip i) d) [
        | none ↦ none
        | some d' ↦ trunc_direct rounds (i + 1) (set_addr i 0 ip) d'
      ]

  -- Its loop over the words of the indirect block, whose buffer stays as it is.
  pub trunc_indirect : (rounds j : ℕ) → Block → Disk → Option Disk
  trunc_indirect zero j v d = some d
  trunc_indirect (suc rounds) j v d =
      let rest = trunc_indirect rounds (j + 1) v d in
      if get32 v (j * 4) == 0 then rest else elim (bfree sb (get32 v (j * 4)) d) [
        | none ↦ none
        | some d' ↦ trunc_indirect rounds (j + 1) v d'
      ]

  -- The indirect block and its words.
  pub trunc_tree : Inode → Disk → Option (Inode × Disk)
  unfolding trunc_indirect
  trunc_tree ip d =
      if addr_of ip ndirect == 0
      then some (ip, d)
      else elim (trunc_indirect nindirect 0 (bread (addr_of ip ndirect) d) d) [
        | none ↦ none
        | some d' ↦ elim (bfree sb (addr_of ip ndirect) d') [
          | none ↦ none
          | some d'' ↦ some (set_addr ndirect 0 ip, d'')
        ]
      ]

  pub itrunc : Inode → Disk → Option (Inode × Disk)
  unfolding trunc_direct trunc_tree iupdate
  itrunc ip d = elim (trunc_direct ndirect 0 ip d) [
    | none ↦ none
    | some (ip', d') ↦ elim (trunc_tree ip' d') [
      | none ↦ none
      | some (ip'', d'') ↦ let ip3 = record ip'' { size = 0 } in some (ip3, iupdate sb ip3 d'')
    ]
  ]

-- `struct stat`
pub record Stat : Type 0 where
  pub type : ℕ
  pub dev : ℕ
  pub ino : ℕ
  pub nlink : ℕ
  pub size : ℕ

pub stati : Inode → Stat
stati ip = record { type = ip.type; dev = ip.dev; ino = ip.inum; nlink = ip.nlink; size = ip.size }
