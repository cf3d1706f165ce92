-- ===== src/Icache.antt =====
-- fs.c: the cache of inodes in use. Each call is one step, also `iput`, which gives up the lock while
-- it frees the inode on the disk: no other process asks for the inode in that time. The counts of
-- references stay below the range of an int.
mod Tests
pub mod Keys
pub mod Unique
pub mod Release
pub mod Alloc
use operating_systems_cs.Base.{
  ℕ, zero, suc, ◌+◌, ◌-◌, Bool, true, false, not, ◌&&◌, ◌||◌, Option, none, some, List, [], ◌∷◌,
  ltb, ◌==◌, if◌then◌else◌,
}
use operating_systems_cs.Base.Lists.{get_elem?, set}
use operating_systems_cs.Fs.{Block, Disk, bread, log_write, Superblock}
use operating_systems_cs.Inode.{
  Inode, t_sfile, get16, put16, paste, iblock, dinode_at, iupdate, read_inode, itrunc,
}

abbrev pub is_none : Option ℕ → Bool
is_none none = true
is_none (some i) = false

-- The entry is in use for this inode.
abbrev pub is_for : (dev inum : ℕ) → Inode → Bool
is_for dev inum ip = ltb 0 ip.ref && (ip.dev == dev) && (ip.inum == inum)

-- The loop of `iget` from entry `i` on: the entry of the inode, and the first free entry.
pub scan_cache : (dev inum : ℕ) → List Inode → (i : ℕ) (empty : Option ℕ) → Option ℕ × Option ℕ
scan_cache dev inum [] i empty = (none, empty)
scan_cache dev inum (ip ∷ ips) i empty =
    let rest =
      scan_cache dev inum ips (i + 1) (if is_none empty && (ip.ref == 0) then some i else empty) in
    if is_for dev inum ip then (some i, empty) else rest

-- `ip->f = …` for the entry `i`.
abbrev pub change : ℕ → (Inode → Inode) → List Inode → List Inode
change i f t = elim (get_elem? t i) [ none ↦ t | some ip ↦ set t i (f ip) ]

abbrev pub take_ref : Inode → Inode
take_ref ip = record ip { ref = ip.ref + 1 }

abbrev pub recycle : (dev inum : ℕ) → Inode → Inode
recycle dev inum ip = record ip { dev = dev; inum = inum; ref = 1; valid = false; busy = false }

-- `none` where it panics.
pub iget : (dev inum : ℕ) → List Inode → Option (ℕ × List Inode)
unfolding scan_cache
iget dev inum t =
    let (found, empty) = scan_cache dev inum t 0 none in
    elim found [
      | some i ↦ some (i, change i take_ref t)
      | none ↦ elim empty [ none ↦ none | some i ↦ some (i, change i (recycle dev inum) t) ]
    ]

pub idup : ℕ → List Inode → List Inode
idup i t = change i take_ref t

-- How `ilock` ends, or where it waits for the holder of the lock.
pub data LockOutcome : Type 0 where
  locked : List Inode → LockOutcome
  sleeps : LockOutcome
  panics : LockOutcome

-- How `iput` ends; `unmatched` is a call for an entry with no reference, whose count would become
-- negative.
pub data PutOutcome : Type 0 where
  put : List Inode → Disk → PutOutcome
  panics : PutOutcome
  unmatched : PutOutcome

module _ (sb : Superblock) where
  -- A pointer that is no entry of the cache is NULL.
  pub ilock : ℕ → Disk → List Inode → LockOutcome
  ilock i d t = elim (get_elem? t i) [
    | none ↦ LockOutcome.panics
    | some ip ↦
        let ip' = if ip.valid then ip else read_inode sb ip d in
        if ltb ip.ref 1
        then LockOutcome.panics
        else if ip.locked
        then sleeps
        else if not ip.valid && (ip'.type == 0)
        then LockOutcome.panics
        else locked (set t i (record ip' { locked = true }))
  ]

  -- `none` where it panics.
  pub iunlock : ℕ → List Inode → Option (List Inode)
  iunlock i t = elim (get_elem? t i) [
    | none ↦ none
    | some ip ↦
        if not ip.locked || ltb ip.ref 1
        then none
        else some (set t i (record ip { locked = false }))
  ]

  -- What `iput` does to an inode that has no links left.
  pub free_inode : Inode → Disk → Option (Inode × Disk)
  free_inode ip d =
      let ip = record ip { busy = true } in
      elim (if ip.type == t_sfile then some (ip, d) else itrunc sb ip d) [
        | none ↦ none
        | some (ip', d') ↦
            let ip3 = record ip' { type = 0 } in
            some (record ip3 { valid = false; busy = false }, iupdate sb ip3 d')
      ]

  abbrev pub is_unused : Inode → Bool
  is_unused ip = (ip.ref == 1) && ip.valid && (ip.nlink == 0)

  pub iput : ℕ → List Inode → Disk → PutOutcome
  unfolding free_inode
  iput i t d = elim (get_elem? t i) [
    | none ↦ unmatched
    | some ip ↦
        if ip.ref == 0
        then unmatched
        else if is_unused ip
        then (if ip.busy then PutOutcome.panics else elim (free_inode ip d) [
          | none ↦ PutOutcome.panics
          | some (ip', d') ↦ put (set t i (record ip' { ref = ip'.ref - 1 })) d'
        ])
        else put (set t i (record ip { ref = ip.ref - 1 })) d
  ]

-- `memset(dip, 0, sizeof(*dip))` and the store of the type.
pub blank_dinode : (p type : ℕ) → Block → Block
blank_dinode p type v = put16 (paste p 64 (λ i. 0) v) p type

module _ (sb : Superblock) where
  -- The loop of `ialloc` at `inum`, with the rounds that are left; `none` where it panics.
  pub ialloc_from : (rounds inum dev type : ℕ) → Disk → List Inode → Option (ℕ × List Inode × Disk)
  ialloc_from zero inum dev type d t = none
  ialloc_from (suc rounds) inum dev type d t =
      let v = bread (iblock sb inum) d in
      let rest = ialloc_from rounds (inum + 1) dev type d t in
      if get16 v (dinode_at inum) == 0
      then elim (iget dev inum t) [
        | none ↦ none
        | some (i, t') ↦
            some (i, t', log_write (iblock sb inum) (blank_dinode (dinode_at inum) type v) d)
      ]
      else rest

  pub ialloc : (dev type : ℕ) → Disk → List Inode → Option (ℕ × List Inode × Disk)
  ialloc dev type d t = ialloc_from (sb.ninodes - 1) 1 dev type d t
