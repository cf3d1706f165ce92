-- ===== src/Log.antt =====
-- log.c: the redo log of the file system.
pub mod Blocks
pub mod Rounds
pub mod Header
pub mod Recovery
mod Tests
pub mod Absorb
pub mod Admission
pub mod Restart
pub mod Crash
pub mod Commit
pub mod WriteLog
pub mod Install
use operating_systems_cs.Base.{
  ℕ, zero, suc, ◌+◌, ◌-◌, ◌*◌, Bool, ◌||◌, Option, none, some, ltb, leb, ◌==◌, if◌then◌else◌,
  update,
}
use Blocks.{Block, BlockIo}

abbrev pub max_op_blocks : ℕ
max_op_blocks = 10

abbrev pub log_size : ℕ
log_size = max_op_blocks * 3

-- `struct logheader`
pub record LogHeader : Type 0 where
  pub n : ℕ
  pub block : ℕ → ℕ

-- `struct log` without its spin lock and the constant `dev`.
pub record Log : Type 0 where
  pub start : ℕ
  pub size : ℕ
  pub outstanding : ℕ
  pub committing : Bool
  pub lh : LogHeader

-- `log.lh.n = 0`
pub clear : Log → Log
clear l = record l { lh = record { n = 0; block = l.lh.block } }

-- The loop of `read_head`: word 0 of the block is `n`, word `i + 1` is `block[i]`.
pub read_entries : Block → ℕ → (ℕ → ℕ) → ℕ → ℕ
read_entries hb zero blk = blk
read_entries hb (suc i) blk = update (read_entries hb i blk) i (hb (i + 1))

-- The loop of `write_head`.
pub write_entries : (ℕ → ℕ) → ℕ → Block → Block
write_entries blk zero hb = hb
write_entries blk (suc i) hb = update (write_entries blk i hb) (i + 1) (blk i)

module _ {S : Type 0} (io : BlockIo S) where
  open io use {bread, bwrite, brelse}

  -- One round of `install_trans`: `memmove` copies the whole block.
  pub install_block : Log → ℕ → S → S
  install_block l tail s =
      let (lbuf, s) = bread (l.start + tail + 1) s in
      let (dbuf, s) = bread (l.lh.block tail) s in
      let s = bwrite (l.lh.block tail) lbuf s in
      let s = brelse (l.start + tail + 1) s in brelse (l.lh.block tail) s

  -- `install_trans`, its first `k` rounds; it makes `lh.n` of them.
  pub install_rounds : Log → ℕ → S → S
  unfolding install_block
  install_rounds l zero s = s
  install_rounds l (suc tail) s = install_block l tail (install_rounds l tail s)

  pub install_trans : Log → S → S
  unfolding install_rounds
  install_trans l s = install_rounds l l.lh.n s

  pub read_head : Log → S → Log × S
  unfolding read_entries
  read_head l s =
      let (buf, s) = bread l.start s in
      let l = record l { lh = record { n = buf 0; block = read_entries buf (buf 0) l.lh.block } } in
      (l, brelse l.start s)

  pub write_head : Log → S → S
  unfolding write_entries
  write_head l s =
      let (buf, s) = bread l.start s in
      let hb = write_entries l.lh.block l.lh.n (update buf 0 l.lh.n) in
      let s = bwrite l.start hb s in brelse l.start s

  pub recover_from_log : Log → S → Log × S
  unfolding read_head install_trans write_head clear
  recover_from_log l s =
      let (l, s) = read_head l s in
      let s = install_trans l s in let l = clear l in (l, write_head l s)

  -- `readsb` reads the super block, block 1, whose fields are words 0 … 6; `initlog` uses two.
  pub readsb : S → (ℕ × ℕ) × S
  readsb s = let (bp, s) = bread 1 s in ((bp 3, bp 4), brelse 1 s)

  -- The header is shorter than a block, so the first test of `initlog` passes.
  pub initlog : Log → S → Log × S
  unfolding readsb recover_from_log
  initlog l s =
      let ((nlog, logstart), s) = readsb s in
      recover_from_log (record l { start = logstart; size = nlog }) s

  -- One round of `write_log`.
  pub write_block : Log → ℕ → S → S
  write_block l tail s =
      let (to, s) = bread (l.start + tail + 1) s in
      let (from, s) = bread (l.lh.block tail) s in
      let s = bwrite (l.start + tail + 1) from s in
      let s = brelse (l.lh.block tail) s in brelse (l.start + tail + 1) s

  pub write_rounds : Log → ℕ → S → S
  unfolding write_block
  write_rounds l zero s = s
  write_rounds l (suc tail) s = write_block l tail (write_rounds l tail s)

  pub write_log : Log → S → S
  unfolding write_rounds
  write_log l s = write_rounds l l.lh.n s

  -- The body of `commit` for a log that is not empty.
  pub commit_all : Log → S → Log × S
  unfolding write_log write_head install_trans clear
  commit_all l s =
      let s = write_log l s in
      let s = write_head l s in let s = install_trans l s in let l = clear l in (l, write_head l s)

  pub commit : Log → S → Log × S
  unfolding commit_all
  commit l s = if ltb 0 l.lh.n then commit_all l s else (l, s)

-- The critical section of `begin_op`: `none` if it sleeps, to be tried again when it is woken.
pub begin_op : Log → Option Log
begin_op l =
    if l.committing
    then none
    else if ltb log_size (l.lh.n + (l.outstanding + 1) * max_op_blocks)
    then none
    else some (record l { outstanding = l.outstanding + 1 })

-- How `end_op` leaves its first critical section. At `outstanding == 0` the counter would become
-- negative: that call has no `begin_op`.
pub data EndOp : Type 0 where
  unmatched : EndOp
  panics : EndOp
  commits : Log → EndOp
  wakes : Log → EndOp

pub end_op : Log → EndOp
end_op l =
    if l.outstanding == 0
    then unmatched
    else if l.committing
    then panics
    else if l.outstanding - 1 == 0
    then commits (record l { outstanding = l.outstanding - 1; committing = Bool.true })
    else wakes (record l { outstanding = l.outstanding - 1 })

-- The second critical section of `end_op`, after `commit`.
pub end_commit : Log → Log
end_commit l = record l { committing = Bool.false }

-- The loop of `log_write`: the first `i` with `block[i] == b`, or `n`. `k` rounds are left.
pub find_block : (ℕ → ℕ) → ℕ → ℕ → ℕ → ℕ
find_block blk zero i b = i
find_block blk (suc k) i b = let rest = find_block blk k (i + 1) b in if blk i == b then i else rest

-- `flags` of `struct buf`: B_VALID and B_DIRTY.
pub record BufFlags : Type 0 where
  pub valid : Bool
  pub dirty : Bool

-- `log_write` on the buffer of block `b` with flags `f`; `none` where it panics. Its tests stand
-- before `acquire`; here they are one step with the section under the lock.
pub log_write : Log → ℕ → BufFlags → Option (Log × BufFlags)
unfolding find_block
log_write l b f =
    if leb log_size l.lh.n || leb (l.size - 1) l.lh.n
    then none
    else if ltb l.outstanding 1
    then none
    else let i = find_block l.lh.block l.lh.n 0 b in
      some (
        record l {
          lh = record {
            n = if i == l.lh.n then l.lh.n + 1 else l.lh.n;
            block = update l.lh.block i b;
          };
        },
        record f { dirty = Bool.true },
      )
