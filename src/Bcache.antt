-- ===== src/Bcache.antt =====
-- bio.c: the cache of disk blocks. The linked list is a list of the buffers, the most recently used
-- one first. A buffer is known by its number in `bcache.buf`.
mod Tests
pub mod Distinct
pub mod Io
pub mod Changes
pub mod Apart
pub mod Coherent
pub mod Reading
pub mod Writing
pub mod Release
pub mod Users
pub mod Tracking
pub mod Altering
pub mod Steps
use operating_systems_cs.Base.{
  ℕ, zero, suc, ◌+◌, ◌-◌, ◌^◌, ◌%◌, Bool, true, false, not, ◌&&◌, Option, none, some, List, [], ◌∷◌,
  ◌==◌, if◌then◌else◌,
}
use operating_systems_cs.Fs.{Block}

-- `struct buf` less its links; `locked` says that its sleep lock is held.
pub record Buf : Type 0 where
  pub id : ℕ
  pub valid : Bool
  pub dirty : Bool
  pub dev : ℕ
  pub blockno : ℕ
  pub locked : Bool
  pub refcnt : ℕ
  pub bytes : Block

abbrev pub nbuf : ℕ
nbuf = 30

-- The loop of `binit`, which puts each buffer in front: the list with the first `n` of them.
unfoldable pub binit_from : ℕ → List Buf
binit_from zero = []
binit_from (suc n) =
    record {
      id = n;
      valid = false;
      dirty = false;
      dev = 0;
      blockno = 0;
      locked = false;
      refcnt = 0;
      bytes = λ _. 0;
    }
    ∷ binit_from n

pub binit : List Buf
binit = binit_from nbuf

abbrev pub is_block : (dev blockno : ℕ) → Buf → Bool
is_block dev blockno b = (b.dev == dev) && (b.blockno == blockno)

abbrev pub refer : Buf → Buf
refer b = record b { refcnt = (b.refcnt + 1) % 2 ^ 32 }

abbrev pub recycle : (dev blockno : ℕ) → Buf → Buf
recycle dev blockno b = record b {
  dev = dev;
  blockno = blockno;
  valid = false;
  dirty = false;
  refcnt = 1;
}

-- The first loop of `bget`: the number of the buffer that has the block.
unfoldable pub take_cached : (dev blockno : ℕ) → List Buf → Option (ℕ × List Buf)
take_cached dev blockno [] = none
take_cached dev blockno (b ∷ bs) =
    let rest = take_cached dev blockno bs in
    if is_block dev blockno b
    then some (b.id, refer b ∷ bs)
    else elim rest [ none ↦ none | some (i, bs') ↦ some (i, b ∷ bs') ]

-- The second loop, from the end of the list.
unfoldable pub recycle_last : (dev blockno : ℕ) → List Buf → Option (ℕ × List Buf)
recycle_last dev blockno [] = none
recycle_last dev blockno (b ∷ bs) = elim (recycle_last dev blockno bs) [
  | some (i, bs') ↦ some (i, b ∷ bs')
  | none ↦ if (b.refcnt == 0) && not b.dirty then some (b.id, recycle dev blockno b ∷ bs) else none
]

-- `bget` up to its `acquiresleep`; `none` where it panics.
unfoldable pub bget : (dev blockno : ℕ) → List Buf → Option (ℕ × List Buf)
bget dev blockno bs = elim (take_cached dev blockno bs) [
  | some r ↦ some r
  | none ↦ recycle_last dev blockno bs
]

-- The buffer `i`, and the others.
unfoldable pub take_out : ℕ → List Buf → Option (Buf × List Buf)
take_out i [] = none
take_out i (b ∷ bs) =
    let rest = take_out i bs in
    if b.id == i
    then some (b, bs)
    else elim rest [ none ↦ none | some (c, bs') ↦ some (c, b ∷ bs') ]

unfoldable pub put_back : Buf → List Buf → List Buf
put_back c [] = []
put_back c (b ∷ bs) = let rest = put_back c bs in if b.id == c.id then c ∷ bs else b ∷ rest

-- `brelse`, with its `releasesleep` in the step of the section under `bcache.lock`, of a buffer
-- whose lock the caller has if it is held; `none` where it panics. The count is unsigned.
unfoldable pub brelse : ℕ → List Buf → Option (List Buf)
brelse i bs = elim (take_out i bs) [
  | none ↦ none
  | some (b, others) ↦
      let c = record b { locked = false; refcnt = (b.refcnt + 2 ^ 32 - 1) % 2 ^ 32 } in
      if not b.locked
      then none
      else if c.refcnt == 0
      then some (c ∷ others)
      else some (put_back c bs)
]
