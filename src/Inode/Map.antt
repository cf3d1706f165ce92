-- ===== src/Inode/Map.antt =====
-- `bmap` where the block is there already.
use operating_systems_cs.Base.{
  ℕ, ◌-◌, ◌*◌, ◌+◌, ◌≤◌, ◌<◌, ◌≡◌, ◌≢◌, refl, true, false, some, arith, ltb, ◌==◌, ==_ne,
  Bool-cases, inl, inr, if◌then◌else◌,
}
use operating_systems_cs.Fs.{Disk, Superblock}
use operating_systems_cs.Inode.{Inode, get32, addr_of, ndirect, nindirect, bmap}

-- The number of block `bn` of the file.
abbrev pub block_of : Inode → Disk → ℕ → ℕ
block_of ip d bn =
    if ltb bn ndirect
    then addr_of ip bn
    else get32 (d.blocks (addr_of ip ndirect)) ((bn - ndirect) * 4)

pub record IsMapped (ip : Inode) (d : Disk) (bn : ℕ) : Type 0 where
  pub nonzero : block_of ip d bn ≢ 0
  pub indirect : ndirect ≤ bn → addr_of ip ndirect ≢ 0
  pub within : bn < ndirect + nindirect

pub bmap-IsMapped :
    (sb : Superblock) (ip : Inode) (bn : ℕ) (d : Disk)
    → IsMapped ip d bn
    → bmap sb ip bn d ≡ some (block_of ip d bn, ip, d)
unfolding bmap
bmap-IsMapped sb ip bn d v = elim (Bool-cases (ltb bn ndirect)) [
  | inl direct ↦
      let there : (addr_of ip bn == 0) ≡ false = ==_ne (addr_of ip bn) 0 (rw direct at v.nonzero) in
      rw (bmap, direct, there) refl
  | inr beyond ↦
      let within : ltb (bn - ndirect) nindirect ≡ true = ground (arith, v.within) in
      let node : (addr_of ip ndirect == 0) ≡ false =
        ==_ne (addr_of ip ndirect) 0 (v.indirect (ground arith)) in
      let there : (get32 (d.blocks (addr_of ip ndirect)) ((bn - ndirect) * 4) == 0) ≡ false =
        ==_ne _ 0 (rw beyond at v.nonzero) in
      rw (bmap, beyond, within, node, there) refl
]
