-- ===== src/Log/Header.antt =====
-- `read_head` and `write_head`: the log's header block.
use operating_systems_cs.Base.{
  ℕ, zero, suc, ◌+◌, ◌-◌, ◌<◌, ◌≡◌, refl, ◌≢◌, arith, update, ==_refl, ==_ne, lt→ltb,
}
use operating_systems_cs.Log.Blocks.{Block, BlockIo}
use operating_systems_cs.Log.{Log, read_entries, write_entries, read_head, write_head}

read_entries_lem :
    (hb : Block) (k : ℕ) (blk : ℕ → ℕ) (j : ℕ) → j < k → read_entries hb k blk j ≡ hb (j + 1)
unfolding read_entries
read_entries_lem hb zero blk j h = elim h [ ]
read_entries_lem hb (suc k) blk j h = ground (arith, read_entries_lem hb k blk j)

write_entries_head : (blk : ℕ → ℕ) (k : ℕ) (hb : Block) → write_entries blk k hb 0 ≡ hb 0
unfolding write_entries
write_entries_head blk zero hb = refl
write_entries_head blk (suc k) hb = ground (arith, write_entries_head blk k hb)

write_entries_lem :
    (blk : ℕ → ℕ) (k : ℕ) (hb : Block) (j : ℕ) → j < k → write_entries blk k hb (j + 1) ≡ blk j
unfolding write_entries
write_entries_lem blk zero hb j h = elim h [ ]
write_entries_lem blk (suc k) hb j h = ground (arith, write_entries_lem blk k hb j)

-- A block that says what the header `l.lh` says.
pub record Says (l : Log) (hb : Block) : Type 0 where
  pub n_says : hb 0 ≡ l.lh.n
  pub block_says : (j : ℕ) → j < l.lh.n → hb (j + 1) ≡ l.lh.block j

module _ {S : Type 0} (io : BlockIo S) (l : Log) (s : S) where
  open io use {view, disk, left}

  pub read_head-Says : Says (read_head io l s).0 (view s l.start)
  unfolding read_head
  read_head-Says = record {
    n_says = ground (arith, io.bread_data l.start s);
    block_says = λ j h. ground (
      arith,
      io.bread_data l.start s,
      read_entries_lem (view s l.start) (view s l.start 0) l.lh.block j,
    );
  }

  pub start-read_head : (read_head io l s).0.start ≡ l.start
  unfolding read_head
  start-read_head = refl

  pub view-read_head : (c : ℕ) → view (read_head io l s).1 c ≡ view s c
  unfolding read_head
  view-read_head c = simp (io.view-brelse, io.view-bread)

  pub disk-read_head : (c : ℕ) → disk (read_head io l s).1 c ≡ disk s c
  unfolding read_head
  disk-read_head c = simp (io.disk-brelse, io.disk-bread)

  pub left-read_head : left (read_head io l s).1 ≡ left s
  unfolding read_head
  left-read_head = simp (io.left-brelse, io.left-bread)

  pub view-write_head : (c : ℕ) → c ≢ l.start → view (write_head io l s) c ≡ view s c
  unfolding write_head
  view-write_head c h = simp (io.view-brelse, io.view-bwrite, ==_ne c l.start h, io.view-bread)

  pub disk-write_head : (c : ℕ) → c ≢ l.start → disk (write_head io l s) c ≡ disk s c
  unfolding write_head
  disk-write_head c h =
      simp (io.disk-brelse, io.disk-bwrite, ==_ne c l.start h, io.disk-bread) (ground arith)

  -- Without power nothing reaches the medium.
  pub disk-write_head_dead : (c : ℕ) → left s ≡ 0 → disk (write_head io l s) c ≡ disk s c
  unfolding write_head
  disk-write_head_dead c h = simp (io.disk-brelse, io.disk-bwrite, io.left-bread, h, io.disk-bread)

  pub left-write_head : left (write_head io l s) ≡ left s - 1
  unfolding write_head
  left-write_head = simp (io.left-brelse, io.left-bwrite, io.left-bread)

  disk-write_head_self :
      0 < left s
      → disk (write_head io l s) l.start
        ≡ write_entries l.lh.block l.lh.n (update (view s l.start) 0 l.lh.n)
  unfolding write_head
  disk-write_head_self h = simp (
    io.disk-brelse,
    io.disk-bwrite,
    io.left-bread,
    lt→ltb 0 (left s) h,
    ==_refl l.start,
    io.bread_data,
  )

  pub write_head-Says : 0 < left s → Says l (disk (write_head io l s) l.start)
  write_head-Says h = record {
    n_says = rw (disk-write_head_self h) (write_entries_head l.lh.block l.lh.n _);
    block_says = λ j p. rw (disk-write_head_self h) (write_entries_lem l.lh.block l.lh.n _ j p);
  }
