-- ===== src/Log/Rounds.antt =====
-- The loops of log.c, one round at a time and as wholes.
use operating_systems_cs.Base.{
  ℕ, zero, suc, ◌+◌, ◌-◌, ◌<◌, ◌≤◌, ◌≡◌, refl, ◌⊎◌, inl, inr, Bool, false, ◌&&◌, ◌||◌, arith, ltb,
  ◌==◌, if◌then◌else◌, Bool-cases,
}
use operating_systems_cs.Log.Blocks.{Block, BlockIo}
use operating_systems_cs.Log.{Log, install_block, write_block}

-- `b` is one of the first `k` entries.
unfoldable pub listed : (ℕ → ℕ) → ℕ → ℕ → Bool
listed blk zero b = false
listed blk (suc k) b = (blk k == b) || listed blk k b

-- The contents after the first `k` log blocks have been copied home.
unfoldable pub replay : ℕ → (ℕ → ℕ) → ℕ → (ℕ → Block) → ℕ → Block
replay start blk zero d b = d b
replay start blk (suc k) d b = if blk k == b then d (start + k + 1) else replay start blk k d b

-- The first `k` entries name no block of the log's own blocks `start … start + n`.
abbrev pub Home : ℕ → ℕ → (ℕ → ℕ) → ℕ → Type 0
Home start n blk k = (j : ℕ) → j < k → (blk j < start) ⊎ (start + n < blk j)

module _ {S : Type 0} (io : BlockIo S) where
  open io use {view, disk, left, bread, bwrite, brelse}

  -- A round writes what is seen at `src` to `dst`.
  pub record Copies (src dst : ℕ) (s s' : S) : Type 0 where
    pub view_after : (c : ℕ) → view s' c ≡ (if c == dst then view s src else view s c)
    pub disk_after :
        (c : ℕ) → disk s' c ≡ (if ltb 0 (left s) && (c == dst) then view s src else disk s c)
    pub left_after : left s' ≡ left s - 1

  pub install_block-Copies :
      (l : Log) (k : ℕ) (s : S) → Copies (l.start + k + 1) (l.lh.block k) s (install_block io l k s)
  unfolding install_block
  install_block-Copies l k s = record {
    view_after = λ c. simp (io.view-brelse, io.view-bwrite, io.view-bread, io.bread_data);
    disk_after =
        λ c. simp (io.disk-brelse, io.disk-bwrite, io.disk-bread, io.left-bread, io.bread_data);
    left_after = simp (io.left-brelse, io.left-bwrite, io.left-bread);
  }

  pub write_block-Copies :
      (l : Log) (k : ℕ) (s : S) → Copies (l.lh.block k) (l.start + k + 1) s (write_block io l k s)
  unfolding write_block
  write_block-Copies l k s = record {
    view_after = λ c. simp (io.view-brelse, io.view-bwrite, io.view-bread, io.bread_data);
    disk_after = λ c. simp (
      io.disk-brelse, io.disk-bwrite, io.disk-bread, io.left-bread, io.bread_data, io.view-bread,
    );
    left_after = simp (io.left-brelse, io.left-bwrite, io.left-bread);
  }

-- The log's own blocks are no home blocks.
pub listed_of_Home :
    (start n : ℕ) (blk : ℕ → ℕ) (k c : ℕ)
    → Home start n blk k
    → start ≤ c
    → c ≤ start + n
    → listed blk k c ≡ false
unfolding listed
listed_of_Home start n blk zero c home p q = refl
listed_of_Home start n blk (suc k) c home p q =
    ground (arith, home k, listed_of_Home start n blk k c (λ j r. home j (omega arith)))

-- A replay depends on the entries, the log blocks, and the block itself if it is not listed.
pub replay-congr :
    (start : ℕ) (blk blk' : ℕ → ℕ) (d d' : ℕ → Block) (k b : ℕ)
    → ((j : ℕ) → j < k → blk j ≡ blk' j)
    → ((j : ℕ) → j < k → d (start + j + 1) ≡ d' (start + j + 1))
    → (listed blk k b ≡ false → d b ≡ d' b)
    → replay start blk k d b ≡ replay start blk' k d' b
unfolding replay listed
replay-congr start blk blk' d d' zero b h g e = e refl
replay-congr start blk blk' d d' (suc k) b h g e = elim (Bool-cases (blk k == b)) [
  | inl hit ↦ ground (arith, h k, g k)
  | inr miss ↦ ground (
    arith,
    h k,
    replay-congr start blk blk' d d' k b (λ j p. h j (omega arith)) (λ j p. g j (omega arith))
        (λ out. e (rw (miss, out))),
  )
]

-- A log that holds `v` at each listed block replays to `v` there, and elsewhere to the disk.
pub replay-eq-if_listed :
    (start : ℕ) (blk : ℕ → ℕ) (v d : ℕ → Block) (k b : ℕ)
    → ((j : ℕ) → j < k → d (start + j + 1) ≡ v (blk j))
    → replay start blk k d b ≡ (if listed blk k b then v b else d b)
unfolding replay listed
replay-eq-if_listed start blk v d zero b h = refl
replay-eq-if_listed start blk v d (suc k) b h =
    ground (arith, h k, replay-eq-if_listed start blk v d k b (λ j p. h j (omega arith)))
