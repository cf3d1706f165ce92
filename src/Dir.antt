-- ===== src/Dir.antt =====
-- fs.c: directories. An entry `de` stands at address 0 of the memory, the name below it at another
-- place.
mod Tests
pub mod Search
use operating_systems_cs.Base.{
  ℕ, zero, suc, ◌+◌, ◌/◌, Bool, true, false, not, ◌&&◌, Option, none, some, List, ltb, ◌==◌,
  if◌then◌else◌,
}
use operating_systems_cs.Base.Int.{ℤ, pos, negsuc}
use operating_systems_cs.Bytes.{strncmp, strncpy}
use operating_systems_cs.Content.{Memory, add32, Transfer, count, Left, left, readi, writei}
use operating_systems_cs.Fs.{Disk, Superblock}
use operating_systems_cs.Icache.{iget, PutOutcome, put, iput}
use operating_systems_cs.Inode.{Inode, t_dir, get16, put16}

-- `sizeof(struct dirent)`: two bytes of `inum`, and the name.
abbrev pub entry_size : ℕ
entry_size = 16

abbrev pub name_size : ℕ
name_size = 14

abbrev pub is_zero : ℤ → Bool
is_zero (pos n) = n == 0
is_zero (negsuc n) = false

-- `namecmp(name, de.name) == 0`
abbrev pub is_named : (name : ℕ) → Memory → Bool
is_named name mem = is_zero (strncmp name 2 name_size mem)

abbrev pub is_entry : Transfer → Bool
is_entry (count n) = n == entry_size
is_entry other = false

-- How `dirlookup` ends: with the entry of the cache and the offset, with 0, or not at all.
pub data Lookup : Type 0 where
  found : (entry off : ℕ) → List Inode → Lookup
  missing : Lookup
  panics : Lookup
  out_of_fuel : Lookup

-- How `dirlink` ends: it has written the entry, or the name was there.
pub data Link : Type 0 where
  linked : Link
  present : List Inode → Link
  panics : Link
  out_of_fuel : Link

-- `*poff = off` and `iget`
pub take_entry : Inode → (off inum : ℕ) → List Inode → Lookup
take_entry dp off inum t = elim (iget dp.dev inum t) [
  | none ↦ Lookup.panics
  | some (i, t') ↦ found i off t'
]

module _ (sb : Superblock) (has_driver : ℕ → Bool) where
  -- The loop of `dirlookup` at `off`.
  pub lookup_loop :
      (fuel : ℕ) (dp : Inode) (name off : ℕ) → Disk → Memory → List Inode → Lookup × Left
  lookup_loop zero dp name off d mem t = (Lookup.out_of_fuel, left dp d mem)
  lookup_loop (suc fuel) dp name off d mem t =
      let (r, l) = readi sb has_driver dp 0 off entry_size d mem in
      let inum = get16 l.mem 0 in
      let rest = lookup_loop fuel l.ip name (add32 off entry_size) l.disk l.mem t in
      if not (ltb off dp.size)
      then (missing, left dp d mem)
      else if not (is_entry r)
      then (Lookup.panics, l)
      else if inum == 0
      then rest
      else if is_named name l.mem
      then (take_entry dp off inum t, l)
      else rest

  pub dirlookup : Inode → (name : ℕ) → Disk → Memory → List Inode → Lookup × Left
  dirlookup dp name d mem t =
      if not (dp.type == t_dir)
      then (Lookup.panics, left dp d mem)
      else lookup_loop (dp.size / entry_size + 2) dp name 0 d mem t

  -- The loop of `dirlink` for an empty entry; `none` where it panics.
  pub empty_loop : (fuel : ℕ) (dp : Inode) (off : ℕ) → Disk → Memory → Option (ℕ × Left)
  empty_loop zero dp off d mem = some (off, left dp d mem)
  empty_loop (suc fuel) dp off d mem =
      let (r, l) = readi sb has_driver dp 0 off entry_size d mem in
      let rest = empty_loop fuel l.ip (add32 off entry_size) l.disk l.mem in
      if not (ltb off dp.size)
      then some (off, left dp d mem)
      else if not (is_entry r)
      then none
      else if get16 l.mem 0 == 0
      then some (off, l)
      else rest

  -- The write of the entry at `off`.
  pub write_entry : (name inum off : ℕ) → Left → Link × Left
  write_entry name inum off l =
      let mem = put16 (strncpy 2 name name_size l.mem) 0 inum in
      let (r, l') = writei sb has_driver l.ip 0 off entry_size l.disk mem in
      if is_entry r then (linked, l') else (Link.panics, l')

  pub dirlink : Inode → (name inum : ℕ) → Disk → Memory → List Inode → Link × Left
  dirlink dp name inum d mem t =
      let (r, l) = dirlookup dp name d mem t in
      elim r [
        | found i off t' ↦ elim (iput sb i t' l.disk) [
          | put t'' d'' ↦ (present t'', left l.ip d'' l.mem)
          | other ↦ (Link.panics, l)
        ]
        | missing ↦ elim (empty_loop (l.ip.size / entry_size + 2) l.ip 0 l.disk l.mem) [
          | none ↦ (Link.panics, l)
          | some (off, l') ↦ write_entry name inum off l'
        ]
        | Lookup.panics ↦ (Link.panics, l)
        | Lookup.out_of_fuel ↦ (Link.out_of_fuel, l)
      ]
