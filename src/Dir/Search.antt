-- ===== src/Dir/Search.antt =====
-- `dirlookup` is a search through the entries in the file.
use operating_systems_cs.Base.{
  ℕ, zero, suc, ◌+◌, ◌*◌, ◌/◌, ◌^◌, ◌≤◌, ◌<◌, ◌≡◌, refl, ap, ◌∙◌, ◌⊎◌, inl, inr, Bool, true, false,
  not, ◌&&◌, Option, none, some, List, arith, ltb, ltb→lt, ltb→le, ◌==◌, Bool-cases, if◌then◌else◌,
}
use operating_systems_cs.Content.Blocks.{byte_at, IsLaid}
use operating_systems_cs.Content.Read.{available, readi_blocks}
use operating_systems_cs.Content.{Memory, add32, count, left, readi}
use operating_systems_cs.Dir.{
  entry_size, is_named, Lookup, missing, take_entry, lookup_loop, dirlookup,
}
use operating_systems_cs.Fs.{Disk, Superblock, bsize}
use operating_systems_cs.Inode.{Inode, t_dir, get16}

-- The memory with the entry at `off` of the file in `de`.
abbrev pub with_entry : Inode → Disk → (off : ℕ) → Memory → Memory
with_entry dp d off mem a = if ltb a entry_size then byte_at dp d (off + a) else mem a

-- The first of the entries from `off` on that is in use and has the name: its offset and number.
unfoldable pub search : (rounds : ℕ) → Inode → Disk → (name off : ℕ) → Memory → Option (ℕ × ℕ)
search zero dp d name off mem = none
search (suc rounds) dp d name off mem =
    let here = with_entry dp d off mem in
    let rest = search rounds dp d name (off + entry_size) mem in
    if not (get16 here 0 == 0) && is_named name here then some (off, get16 here 0) else rest

-- What `dirlookup` makes of it.
pub outcome : Inode → List Inode → Option (ℕ × ℕ) → Lookup
outcome dp t none = missing
outcome dp t (some (off, inum)) = take_entry dp off inum t

module _ (sb : Superblock) (has_driver : ℕ → Bool) (top : ℕ) (dp : Inode) (d : Disk) (name : ℕ)
    (t : List Inode) where
  with_entry-twice :
      (off off' : ℕ) (mem : Memory)
      → with_entry dp d off' (with_entry dp d off mem) ≡ with_entry dp d off' mem
  with_entry-twice off off' mem j a = same a j
    where
      same : (a : ℕ) → with_entry dp d off' (with_entry dp d off mem) a ≡ with_entry dp d off' mem a
      same a = ground arith

  search-with_entry :
      (rounds off off' : ℕ) (mem : Memory)
      → search rounds dp d name off' (with_entry dp d off mem) ≡ search rounds dp d name off' mem
  unfolding search
  search-with_entry zero off off' mem = refl
  search-with_entry (suc rounds) off off' mem =
      rw (with_entry-twice off off' mem, search-with_entry rounds off (off' + entry_size) mem) refl

  readi-with_entry :
      (off : ℕ) (mem : Memory)
      → dp.type ≡ t_dir
      → IsLaid top dp d
      → off + entry_size ≤ dp.size
      → dp.size ≤ top * bsize
      → dp.size < 2 ^ 31
      → readi sb has_driver dp 0 off entry_size d mem
        ≡ (count entry_size, left dp d (with_entry dp d off mem))
  readi-with_entry off mem ty laid fits sz b =
      let (mem', e, inside, outside) =
        readi_blocks sb top has_driver dp 0 off entry_size d mem (λ e. absurd (omega arith))
          (λ e. absurd (omega arith)) laid (omega arith) sz (omega arith) (omega arith) in
      let all : available sb top has_driver dp off entry_size ≡ entry_size = ground arith in
      rw all at e
      ∙ ap (λ m. (count entry_size, left dp d m))
          (the_same mem' (rw all at inside) (rw all at outside))
    where
      the_same :
          (mem' : Memory)
          → ((i : ℕ) → i < entry_size → mem' (0 + i) ≡ byte_at dp d (off + i))
          → ((a : ℕ) → (a < 0) ⊎ (0 + entry_size ≤ a) → mem' a ≡ mem a)
          → mem' ≡ with_entry dp d off mem
      the_same mem' inside outside j a = each a j
        where
          each : (a : ℕ) → mem' a ≡ with_entry dp d off mem a
          each a = elim (Bool-cases (ltb a entry_size)) [
            | inl near ↦
                let zero_add : a ≡ 0 + a = omega arith in
                rw near (ap mem' zero_add ∙ inside a (ltb→lt a entry_size near))
            | inr far ↦
                let le : entry_size ≤ a = ltb→le a entry_size far in
                rw far (outside a (inr (omega arith)))
          ]

  lookup_loop-search :
      (rounds fuel off : ℕ) (mem : Memory)
      → dp.type ≡ t_dir
      → IsLaid top dp d
      → dp.size ≤ top * bsize
      → dp.size < 2 ^ 31
      → dp.size ≡ off + rounds * entry_size
      → rounds < fuel
      → let (r, l) = lookup_loop sb has_driver fuel dp name off d mem t in
        (r ≡ outcome dp t (search rounds dp d name off mem)) × (l.ip ≡ dp) × (l.disk ≡ d)
  unfolding lookup_loop search outcome
  lookup_loop-search rounds zero off mem ty laid sz b whole lt = absurd (omega arith)
  lookup_loop-search zero (suc fuel) off mem ty laid sz b whole lt =
      let over : ltb off dp.size ≡ false = ground arith in rw over (refl, refl, refl)
  lookup_loop-search (suc rounds) (suc fuel) off mem ty laid sz b whole lt =
      let inside : ltb off dp.size ≡ true = ground arith in
      let here : Memory = with_entry dp d off mem in
      let next : add32 off entry_size ≡ off + entry_size = omega arith in
      let reads : readi sb has_driver dp 0 off entry_size d mem
          ≡ (count entry_size, left dp d here) =
        readi-with_entry off mem ty laid (omega arith) sz b in
      let rest = rw (search-with_entry rounds off (off + entry_size) mem) at (
        lookup_loop-search rounds fuel (off + entry_size) here ty laid sz b (omega arith)
          (omega arith)) in
      rw (inside, reads)
        (rw next (elim (Bool-cases (get16 here 0 == 0)) [
          | inl unused ↦ rw unused rest
          | inr used ↦ elim (Bool-cases (is_named name here)) [
            | inr other ↦ rw (used, other) rest
            | inl named ↦ rw (used, named) (refl, refl, refl)
          ]
        ]))

  -- On a directory of whole entries, below 2^31 bytes, whose blocks are all there, dirlookup, with
  -- rounds enough, does not panic for itself and is a search through the bytes of the file: it
  -- takes by iget the first entry that is in use and has the name, with its offset, or returns 0 if
  -- there is none, and changes neither the inode nor the disk; it panics exactly if iget does.
  pub dirlookup-search :
      (rounds : ℕ) (mem : Memory)
      → dp.type ≡ t_dir
      → IsLaid top dp d
      → dp.size ≤ top * bsize
      → dp.size < 2 ^ 31
      → dp.size ≡ rounds * entry_size
      → let (r, l) = dirlookup sb has_driver dp name d mem t in
        (r ≡ outcome dp t (search rounds dp d name 0 mem)) × (l.ip ≡ dp) × (l.disk ≡ d)
  unfolding dirlookup
  dirlookup-search rounds mem ty laid sz b whole =
      let directory : (dp.type == t_dir) ≡ true = ground arith in
      rw directory (
        lookup_loop-search rounds (dp.size / entry_size + 2) 0 mem ty laid sz b (omega arith)
          (omega arith))
