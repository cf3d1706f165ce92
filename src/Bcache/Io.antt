-- ===== src/Bcache/Io.antt =====
-- bio.c, memide.c and sleeplock.c: the buffers with their locks, and the disk in memory below them.
use operating_systems_cs.Base.{
  ℕ, true, false, not, ◌&&◌, Option, none, some, List, leb, ◌==◌, if◌then◌else◌, update,
}
use operating_systems_cs.Bcache.{Buf, bget, take_out, put_back, brelse}
use operating_systems_cs.Fs.{Block}

-- `bcache`, and `memdisk` with its `disksize`.
pub record Cache : Type 0 where
  pub bufs : List Buf
  pub disk : ℕ → Block
  pub disksize : ℕ

-- The part of `iderw` after its checks.
abbrev pub move_block : Buf → Cache → Buf × Cache
move_block b c =
    if b.dirty
    then (
      record b { dirty = false; valid = true },
      record c { disk = update c.disk b.blockno b.bytes },
    )
    else (record b { bytes = c.disk b.blockno; valid = true }, c)

-- The buffer, and the cache with the disk after it; `none` where it panics.
unfoldable pub iderw : Buf → Cache → Option (Buf × Cache)
iderw b c =
    if not b.locked
    then none
    else if b.valid && not b.dirty
    then none
    else if not (b.dev == 1)
    then none
    else if leb c.disksize b.blockno
    then none
    else some (move_block b c)

-- How `bread` ends: it returns buffer `i`, sleeps until its lock is free, or panics.
pub data Read : Type 0 where
  reads : (i : ℕ) → Cache → Read
  sleeps : (i : ℕ) → Cache → Read
  panics : Read

abbrev pub put_in : Buf → Cache → Cache
put_in b c = record c { bufs = put_back b c.bufs }

-- `bread` once the lock of buffer `b` is taken.
unfoldable pub fill : Buf → Cache → Read
fill b c =
    if b.valid
    then reads b.id (put_in b c)
    else elim (iderw b c) [ none ↦ panics | some (b', c') ↦ reads b'.id (put_in b' c') ]

-- `bread` from the loop of `acquiresleep` on, also when it is woken there.
unfoldable pub lock_and_fill : (i : ℕ) → Cache → Read
lock_and_fill i c = elim (take_out i c.bufs) [
  | none ↦ panics
  | some (b, others) ↦ if b.locked then sleeps i c else fill (record b { locked = true }) c
]

unfoldable pub bread : (dev blockno : ℕ) → Cache → Read
bread dev blockno c = elim (bget dev blockno c.bufs) [
  | none ↦ panics
  | some (i, bs) ↦ lock_and_fill i (record c { bufs = bs })
]

-- `none` where it panics.
unfoldable pub bwrite : (i : ℕ) → Cache → Option Cache
bwrite i c = elim (take_out i c.bufs) [
  | none ↦ none
  | some (b, others) ↦ if not b.locked then none else elim (iderw (record b { dirty = true }) c) [
    | none ↦ none
    | some (b', c') ↦ some (put_in b' c')
  ]
]

-- What the holder of a buffer does before `bwrite`, or in its place by `log_write`, which marks the
-- buffer dirty: it has other bytes.
unfoldable pub store_bytes : (i : ℕ) → Block → Cache → Option Cache
store_bytes i v c = elim (take_out i c.bufs) [
  | none ↦ none
  | some (b, others) ↦
      if b.locked then some (put_in (record b { bytes = v; dirty = true }) c) else none
]

unfoldable pub release : (i : ℕ) → Cache → Option Cache
release i c = elim (brelse i c.bufs) [ none ↦ none | some bs ↦ some (record c { bufs = bs }) ]
