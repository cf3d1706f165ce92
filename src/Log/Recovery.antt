-- ===== src/Log/Recovery.antt =====
-- What the medium stands for once the log on it has been replayed, and how installing a log that
-- is on the medium, then clearing it, keeps that wherever the power fails.
use operating_systems_cs.Base.{ℕ, ◌+◌, ◌-◌, ◌<◌, ◌≤◌, ◌≡◌, refl, ◌∙◌, ◌≢◌, false, arith}
use native.Mathlib.Decide.{dec_lt}
use operating_systems_cs.Log.Blocks.{Block, BlockIo}
use operating_systems_cs.Log.{Log, clear, install_trans, write_head}
use operating_systems_cs.Log.Rounds.{listed, replay, Home, listed_of_Home, replay-congr}
use operating_systems_cs.Log.Header.{Says, disk-write_head, disk-write_head_dead, write_head-Says}
use operating_systems_cs.Log.Install.{
  disk-install_rounds, disk-install_rounds_dead, left-install_rounds, disk-install_rounds-replay,
}

-- The file system that a disk stands for: the blocks that its header lists are read in the log.
unfoldable pub recovered : ℕ → (ℕ → Block) → ℕ → Block
recovered start d b = replay start (λ j. d start (j + 1)) (d start 0) d b

-- A header that says what `l` says is replayed as `l` lists.
pub recovered-Says :
    (l : Log) (d : ℕ → Block) (b : ℕ)
    → Says l (d l.start)
    → recovered l.start d b ≡ replay l.start l.lh.block l.lh.n d b
unfolding recovered
recovered-Says l d b says =
    rw says.n_says
      (replay-congr l.start _ l.lh.block d d l.lh.n b says.block_says (λ j p. refl) (λ p. refl))

pub recovered_of_zero :
    (start : ℕ) (d : ℕ → Block) (b : ℕ) → d start 0 ≡ 0 → recovered start d b ≡ d b
unfolding recovered replay
recovered_of_zero start d b h = rw h refl

module _ {S : Type 0} (io : BlockIo S) (l : Log) (s : S)
    (home : Home l.start l.lh.n l.lh.block l.lh.n) where
  open io use {view, disk, left}

  -- What `recover_from_log` and `commit` end with.
  abbrev pub finish : S
  finish = write_head io (clear l) (install_trans io l s)

  own : (c : ℕ) → l.start ≤ c → c ≤ l.start + l.lh.n → listed l.lh.block l.lh.n c ≡ false
  own c p q = listed_of_Home l.start l.lh.n l.lh.block l.lh.n c home p q

  left-install : left (install_trans io l s) ≡ left s - l.lh.n
  unfolding install_trans
  left-install = left-install_rounds io l l.lh.n s

  disk-install_unlisted :
      (c : ℕ) → listed l.lh.block l.lh.n c ≡ false → disk (install_trans io l s) c ≡ disk s c
  unfolding install_trans
  disk-install_unlisted c h = disk-install_rounds io l l.lh.n s c h

  -- The header is cleared if the power lasts for one write more than the log has blocks.
  pub finish-zero : l.lh.n < left s → disk finish l.start 0 ≡ 0
  unfolding clear
  finish-zero h =
      (write_head-Says io (clear l) (install_trans io l s) (omega (arith, left-install))).n_says

  -- Otherwise the header stands as it was.
  pub finish-header : left s ≤ l.lh.n → disk finish l.start ≡ disk s l.start
  unfolding clear
  finish-header h =
      disk-write_head_dead io (clear l) (install_trans io l s) l.start (omega (arith, left-install))
      ∙ disk-install_unlisted l.start (own l.start (omega arith) (omega arith))

  -- All other blocks are `install_trans`'s.
  finish-disk : (c : ℕ) → c ≢ l.start → disk finish c ≡ disk (install_trans io l s) c
  unfolding clear
  finish-disk c h = disk-write_head io (clear l) (install_trans io l s) c h

  pub finish-log : (j : ℕ) → j < l.lh.n → disk finish (l.start + j + 1) ≡ disk s (l.start + j + 1)
  finish-log j p =
      finish-disk (l.start + j + 1) (omega arith)
      ∙ disk-install_unlisted (l.start + j + 1) (own _ (omega arith) (omega arith))

  pub finish-dead : (c : ℕ) → left s ≡ 0 → disk finish c ≡ disk s c
  unfolding clear install_trans
  finish-dead c h =
      disk-write_head_dead io (clear l) (install_trans io l s) c (omega (arith, left-install))
      ∙ disk-install_rounds_dead io l l.lh.n s c h

  module _
      (clean : (j : ℕ) → j < l.lh.n → view s (l.start + j + 1) ≡ disk s (l.start + j + 1)) where
    -- With the power on, every block is as the replay of the log has it.
    pub finish-replay :
        (c : ℕ)
        → c ≢ l.start
        → l.lh.n ≤ left s
        → disk finish c ≡ replay l.start l.lh.block l.lh.n (disk s) c
    unfolding install_trans
    finish-replay c h p =
        finish-disk c h
        ∙ disk-install_rounds-replay io l l.lh.n s c
            (λ j q. own (l.start + j + 1) (omega arith) (omega arith)) clean p

    -- Wherever the power fails, the disk stands for the same file system as before.
    pub recovered-finish :
        (c : ℕ)
        → c ≢ l.start
        → Says l (disk s l.start)
        → recovered l.start (disk finish) c ≡ replay l.start l.lh.block l.lh.n (disk s) c
    recovered-finish c h says = elim (dec_lt l.lh.n (left s)) [
      | yes p ↦
          recovered_of_zero l.start (disk finish) c (finish-zero p)
          ∙ finish-replay c h (omega arith)
      | no p ↦
          recovered-Says l (disk finish) c (rw (finish-header (omega arith)) says)
          ∙ replay-congr l.start l.lh.block l.lh.block (disk finish) (disk s) l.lh.n c (λ j q. refl)
              finish-log (λ out. finish-disk c h ∙ disk-install_unlisted c out)
    ]

-- The entries of the header on disk name no block of the log.
abbrev pub HomeOnDisk : ℕ → (ℕ → Block) → Type 0
HomeOnDisk start d = Home start (d start 0) (λ j. d start (j + 1)) (d start 0)

pub HomeOnDisk-zero : (start : ℕ) (d : ℕ → Block) → d start 0 ≡ 0 → HomeOnDisk start d
HomeOnDisk-zero start d h j p = absurd (omega (arith, h))

pub HomeOnDisk-Says :
    (l : Log) (d : ℕ → Block)
    → Says l (d l.start)
    → Home l.start l.lh.n l.lh.block l.lh.n
    → HomeOnDisk l.start d
HomeOnDisk-Says l d says home j p = ground (arith, says.n_says, says.block_says j, home j)
