-- ===== src/Icache/Release.antt =====
-- `iput`: what the last reference to a small file without links leaves.
use operating_systems_cs.Base.{
  ℕ, ◌-◌, ◌<◌, ◌≡◌, ◌≢◌, refl, ◌⊎◌, true, false, some, List, arith, ◌==◌,
}
use operating_systems_cs.Base.Lists.{get_elem?, set}
use operating_systems_cs.Fs.{Disk, Superblock}
use operating_systems_cs.Icache.{put, is_unused, iput}
use operating_systems_cs.Inode.Layout.{Fits, read_inode-iupdate, iupdate-elsewhere}
use operating_systems_cs.Inode.{Inode, t_sfile, iblock, iupdate, read_inode}

module _ (sb : Superblock) where
  -- The inode that is written to the disk, and the entry that is left.
  abbrev erased : Inode → Inode
  erased ip = record ip { busy = true; type = 0 }

  abbrev pub left_over : Inode → Inode
  left_over ip = record ip { busy = false; valid = false; type = 0; ref = ip.ref - 1 }

  iput-small :
      (i : ℕ) (t : List Inode) (d : Disk) (ip : Inode)
      → get_elem? t i ≡ some ip
      → ip.type ≡ t_sfile
      → is_unused sb ip ≡ true
      → ip.busy ≡ false
      → iput sb i t d ≡ put (set t i (left_over ip)) (iupdate sb (erased ip) d)
  unfolding iput
  iput-small i t d ip g ty unused idle =
      let one : (ip.ref == 0) ≡ false = ground arith in
      let small : (ip.type == t_sfile) ≡ true = ground arith in
      rw (iput, g, one, unused) (rw idle (rw small refl))

  -- Within a transaction whose log has room, the iput of the last reference to a valid, not busy
  -- entry of a small file without links, whose fields fit on the disk, does not panic and frees no
  -- block, although addrs holds content that itrunc would take for block numbers: it empties the
  -- entry, and on the disk the inode is free and no block but its own has changed.
  pub iput_small :
      (i : ℕ) (t : List Inode) (d : Disk) (ip : Inode)
      → get_elem? t i ≡ some ip
      → Fits ip
      → ip.type ≡ t_sfile
      → ip.ref ≡ 1
      → ip.valid ≡ true
      → ip.nlink ≡ 0
      → ip.busy ≡ false
      → (d' : Disk) × (iput sb i t d ≡ put (set t i (left_over ip)) d')
        × ((jp : Inode) → jp.inum ≡ ip.inum → (read_inode sb jp d').type ≡ 0)
        × ((b : ℕ) → b ≢ iblock sb ip.inum → d'.blocks b ≡ d.blocks b)
  iput_small i t d ip g f ty one valid no_links idle =
      let unused : is_unused sb ip ≡ true = ground arith in
      let fits : Fits (erased ip) = record {
        type = omega arith;
        major = f.major;
        minor = f.minor;
        nlink = f.nlink;
        size = f.size;
      } in
      (
        iupdate sb (erased ip) d,
        iput-small i t d ip g ty unused idle,
        λ jp same. (read_inode-iupdate sb (erased ip) jp d fits same).type,
        λ b ne. iupdate-elsewhere sb (erased ip) b d ne,
      )

  -- While other references or links remain, `iput` only gives up its reference.
  pub iput_kept :
      (i : ℕ) (t : List Inode) (d : Disk) (ip : Inode)
      → get_elem? t i ≡ some ip
      → 0 < ip.ref
      → (1 < ip.ref) ⊎ (0 < ip.nlink)
      → iput sb i t d ≡ put (set t i (record ip { ref = ip.ref - 1 })) d
  unfolding iput
  iput_kept i t d ip g pos more =
      let held : (ip.ref == 0) ≡ false = ground arith in
      let used : is_unused sb ip ≡ false = ground arith in rw (iput, g, held, used) refl
