-- ===== src/Fs.antt =====
-- fs.c: blocks of the disk, the superblock, and the allocator of blocks. The contents of a block are
-- its BSIZE bytes as the buffer cache hands them out: `bread` reads them, and what is written into a
-- buffer and passed to `log_write` or `bwrite` replaces them. The callers are within a transaction
-- whose log has room, so that `log_write` returns.
mod Tests
pub mod Bits
pub mod Scan
pub mod Bitmap
use Prim.Native.Nat.{bit_and, bit_or}
use operating_systems_cs.Base.{
  ℕ, zero, suc, ◌+◌, ◌-◌, ◌*◌, ◌/◌, ◌%◌, ◌^◌, Bool, Option, none, some, List, [], ◌∷◌, ltb, ◌==◌,
  if◌then◌else◌, update,
}

abbrev pub Block : Type 0
Block = ℕ → ℕ

abbrev pub bsize : ℕ
bsize = 512

-- `logged` lists the blocks passed to `log_write`, the last one first.
pub record Disk : Type 0 where
  pub blocks : ℕ → Block
  pub logged : List ℕ

abbrev pub bread : ℕ → Disk → Block
bread b d = d.blocks b

abbrev pub log_write : ℕ → Block → Disk → Disk
log_write b v d = record d { blocks = update d.blocks b v; logged = b ∷ d.logged }

abbrev pub bwrite : ℕ → Block → Disk → Disk
bwrite b v d = record d { blocks = update d.blocks b v }

-- The fields of `struct superblock` that fs.c uses.
pub record Superblock : Type 0 where
  pub size : ℕ
  pub ninodes : ℕ
  pub inodestart : ℕ
  pub bmapstart : ℕ

pub bzero : ℕ → Disk → Disk
bzero bno d = log_write bno (λ i. 0) d

-- Bits in a block of the bitmap.
abbrev pub bpb : ℕ
bpb = 4096

abbrev pub bblock : Superblock → ℕ → ℕ
bblock sb b = b / bpb + sb.bmapstart

-- `1 << (bi % 8)`
abbrev pub mask : ℕ → ℕ
mask bi = 2 ^ (bi % 8)

pub is_free_bit : Block → ℕ → Bool
is_free_bit v bi = bit_and (v (bi / 8)) (mask bi) == 0

pub set_bit : Block → ℕ → Block
set_bit v bi = update v (bi / 8) (bit_or (v (bi / 8)) (mask bi))

-- `&= ~m` on an unsigned char.
pub clear_bit : Block → ℕ → Block
clear_bit v bi = update v (bi / 8) (bit_and (v (bi / 8)) (255 - mask bi))

-- The inner loop of `balloc` at `bi`, with the rounds that are left of BPB.
pub scan_bits : (rounds bi b size : ℕ) → Block → Option ℕ
unfolding is_free_bit
scan_bits zero bi b size v = none
scan_bits (suc rounds) bi b size v =
    let rest = scan_bits rounds (bi + 1) b size v in
    if ltb (b + bi) size then (if is_free_bit v bi then some bi else rest) else none

module _ (sb : Superblock) where
  -- What `balloc` does with the free bit `bi` of the block of the bitmap for `b`.
  pub take_block : (b bi : ℕ) → Disk → ℕ × Disk
  unfolding set_bit bzero
  take_block b bi d =
      (b + bi, bzero (b + bi) (log_write (bblock sb b) (set_bit (bread (bblock sb b) d) bi) d))

  -- The outer loop of `balloc`, with the rounds that are left; `none` where it panics.
  pub balloc_from : (rounds b : ℕ) → Disk → Option (ℕ × Disk)
  unfolding scan_bits take_block
  balloc_from zero b d = none
  balloc_from (suc rounds) b d = elim (scan_bits bpb 0 b sb.size (bread (bblock sb b) d)) [
    | some bi ↦ some (take_block b bi d)
    | none ↦ balloc_from rounds (b + bpb) d
  ]

  -- The outer loop makes a round for each block of the bitmap, the last of which may be used in part.
  pub balloc : Disk → Option (ℕ × Disk)
  unfolding balloc_from
  balloc d = balloc_from ((sb.size + bpb - 1) / bpb) 0 d

  pub bfree : ℕ → Disk → Option Disk
  unfolding is_free_bit clear_bit
  bfree b d =
      let v = bread (bblock sb b) d in
      if is_free_bit v (b % bpb)
      then none
      else some (log_write (bblock sb b) (clear_bit v (b % bpb)) d)
