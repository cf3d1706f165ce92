-- ===== src/Content/Blocks.antt =====
-- Files of blocks: the content of a file whose blocks are there already.
use operating_systems_cs.Base.{
  ℕ, ◌+◌, ◌-◌, ◌/◌, ◌%◌, ◌≤◌, ◌<◌, ◌≡◌, ◌≢◌, refl, true, false, ◌&&◌, arith, ltb, leb, ◌==◌,
}
use operating_systems_cs.Content.{min}
use operating_systems_cs.Fs.{Disk, bsize}
use operating_systems_cs.Inode.Map.{block_of, IsMapped}
use operating_systems_cs.Inode.{Inode, addr_of}

-- The byte of the file at `pos`.
abbrev pub byte_at : Inode → Disk → ℕ → ℕ
byte_at ip d pos = d.blocks (block_of ip d (pos / bsize)) (pos % bsize)

-- The blocks below `top` are there, no two of them are one, and none holds their numbers.
pub record IsLaid (top : ℕ) (ip : Inode) (d : Disk) : Type 0 where
  pub mapped : (bn : ℕ) → bn < top → IsMapped ip d bn
  pub distinct : (bn bm : ℕ) → bn < top → bm < top → block_of ip d bn ≡ block_of ip d bm → bn ≡ bm
  pub apart : (bn bm : ℕ) → bn < top → bm < top → 12 ≤ bm → block_of ip d bn ≢ addr_of ip 12

-- The bytes that one round moves.
pub chunk_bounds :
    (off left : ℕ)
    → 0 < left
    → (0 < min left (bsize - off % bsize))
      × (min left (bsize - off % bsize) ≤ left)
      × (off % bsize + min left (bsize - off % bsize) ≤ bsize)
chunk_bounds off left h = ground arith

-- Bytes of one block.
same_block : (off i : ℕ) → off % bsize + i < bsize → (off + i) / bsize ≡ off / bsize
same_block off i h = omega arith

in_block : (off i : ℕ) → off % bsize + i < bsize → (off + i) % bsize ≡ off % bsize + i
in_block off i h = omega arith

pub in_chunk :
    (off pos m : ℕ)
    → pos / bsize ≡ off / bsize
    → (leb (off % bsize) (pos % bsize) && ltb (pos % bsize) (off % bsize + m))
      ≡ (leb off pos && ltb pos (off + m))
in_chunk off pos m h = ground arith

pub chunk_index : (off pos : ℕ) → pos / bsize ≡ off / bsize → pos % bsize - off % bsize ≡ pos - off
chunk_index off pos h = omega arith

pub other_chunk :
    (off pos m : ℕ)
    → (pos / bsize == off / bsize) ≡ false
    → off % bsize + m ≤ bsize
    → (leb off pos && ltb pos (off + m)) ≡ false
other_chunk off pos m h fits = ground arith

pub same_number : (a b : ℕ) → a ≡ b → (a == b) ≡ true
same_number a b e = ground arith

at_place :
    (ip : Inode) (d : Disk) (b c i j : ℕ)
    → b ≡ c
    → i ≡ j
    → d.blocks (block_of ip d b) i ≡ d.blocks (block_of ip d c) j
at_place ip d b c i j e h = rw (e, h) refl

pub byte_at-block :
    (ip : Inode) (d : Disk) (off i : ℕ)
    → off % bsize + i < bsize
    → byte_at ip d (off + i) ≡ d.blocks (block_of ip d (off / bsize)) (off % bsize + i)
byte_at-block ip d off i h =
    at_place ip d ((off + i) / bsize) (off / bsize) ((off + i) % bsize) (off % bsize + i)
      (same_block off i h) (in_block off i h)
