-- ===== src/Log/Blocks.antt =====
-- What log.c asks of the block layer (bio.c over ide.c): `bread`, `bwrite` and `brelse`.
use operating_systems_cs.Base.{ℕ, ◌-◌, ◌≡◌, ◌&&◌, ltb, ◌==◌, if◌then◌else◌}

-- The contents of a disk block, BSIZE bytes, as its words.
abbrev pub Block : Type 0
Block = ℕ → ℕ

-- `view s b` is what a reader of block `b` sees, the cached buffer or else the disk; `disk s b`
-- is what the medium holds. `left s` counts the writes that still reach the medium before the
-- power fails: the ones after those change the buffer only.
pub record BlockIo (S : Type 0) : Type 0 where
  pub view : S → ℕ → Block
  pub disk : S → ℕ → Block
  pub left : S → ℕ
  pub bread : ℕ → S → Block × S
  pub bwrite : ℕ → Block → S → S
  pub brelse : ℕ → S → S
  pub bread_data : (b : ℕ) (s : S) → (bread b s).0 ≡ view s b
  pub view-bread : (b : ℕ) (s : S) (c : ℕ) → view (bread b s).1 c ≡ view s c
  pub disk-bread : (b : ℕ) (s : S) (c : ℕ) → disk (bread b s).1 c ≡ disk s c
  pub left-bread : (b : ℕ) (s : S) → left (bread b s).1 ≡ left s
  pub view-bwrite :
      (b : ℕ) (d : Block) (s : S) (c : ℕ) → view (bwrite b d s) c ≡ (if c == b then d else view s c)
  pub disk-bwrite :
      (b : ℕ) (d : Block) (s : S) (c : ℕ)
      → disk (bwrite b d s) c ≡ (if ltb 0 (left s) && (c == b) then d else disk s c)
  pub left-bwrite : (b : ℕ) (d : Block) (s : S) → left (bwrite b d s) ≡ left s - 1
  pub view-brelse : (b : ℕ) (s : S) (c : ℕ) → view (brelse b s) c ≡ view s c
  pub disk-brelse : (b : ℕ) (s : S) (c : ℕ) → disk (brelse b s) c ≡ disk s c
  pub left-brelse : (b : ℕ) (s : S) → left (brelse b s) ≡ left s
