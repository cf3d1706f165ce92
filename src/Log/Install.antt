-- ===== src/Log/Install.antt =====
-- `install_trans`: the log's blocks are copied home.
use operating_systems_cs.Base.{ℕ, zero, suc, ◌+◌, ◌-◌, ◌<◌, ◌≤◌, ◌≡◌, refl, false, arith}
use operating_systems_cs.Log.Blocks.{BlockIo}
use operating_systems_cs.Log.{Log, install_block, install_rounds}
use operating_systems_cs.Log.Rounds.{listed, replay, Copies, install_block-Copies}

module _ {S : Type 0} (io : BlockIo S) (l : Log) where
  open io use {view, disk, left}

  round :
      (k : ℕ) (s : S)
      → Copies io
          (l.start + k + 1)
          (l.lh.block k)
          (install_rounds io l k s)
          (install_block io l k (install_rounds io l k s))
  round k s = install_block-Copies io l k (install_rounds io l k s)

  -- A block that is not listed is left alone.
  pub view-install_rounds :
      (k : ℕ) (s : S) (c : ℕ)
      → listed l.lh.block k c ≡ false
      → view (install_rounds io l k s) c ≡ view s c
  unfolding install_rounds listed
  view-install_rounds zero s c h = refl
  view-install_rounds (suc k) s c h =
      ground (arith, (round k s).view_after c, view-install_rounds k s c)

  pub disk-install_rounds :
      (k : ℕ) (s : S) (c : ℕ)
      → listed l.lh.block k c ≡ false
      → disk (install_rounds io l k s) c ≡ disk s c
  unfolding install_rounds listed
  disk-install_rounds zero s c h = refl
  disk-install_rounds (suc k) s c h =
      ground (arith, (round k s).disk_after c, disk-install_rounds k s c)

  pub left-install_rounds : (k : ℕ) (s : S) → left (install_rounds io l k s) ≡ left s - k
  unfolding install_rounds
  left-install_rounds zero s = omega arith
  left-install_rounds (suc k) s = omega (arith, (round k s).left_after, left-install_rounds k s)

  -- With the power on, the medium holds what a replay of the log gives, home blocks and all.
  pub disk-install_rounds-replay :
      (k : ℕ) (s : S) (c : ℕ)
      → ((j : ℕ) → j < k → listed l.lh.block k (l.start + j + 1) ≡ false)
      → ((j : ℕ) → j < k → view s (l.start + j + 1) ≡ disk s (l.start + j + 1))
      → k ≤ left s
      → disk (install_rounds io l k s) c ≡ replay l.start l.lh.block k (disk s) c
  unfolding install_rounds replay listed
  disk-install_rounds-replay zero s c apart clean p = refl
  disk-install_rounds-replay (suc k) s c apart clean p = ground (
    arith,
    (round k s).disk_after c,
    disk-install_rounds-replay k s c (λ j q. ground (arith, apart j))
        (λ j q. ground (arith, clean j)),
    view-install_rounds k s (l.start + k + 1),
    apart k,
    clean k,
    left-install_rounds k s,
  )

  -- Without power nothing reaches the medium.
  pub disk-install_rounds_dead :
      (k : ℕ) (s : S) (c : ℕ) → left s ≡ 0 → disk (install_rounds io l k s) c ≡ disk s c
  unfolding install_rounds
  disk-install_rounds_dead zero s c h = refl
  disk-install_rounds_dead (suc k) s c h =
      ground
        (arith, (round k s).disk_after c, disk-install_rounds_dead k s c, left-install_rounds k s)
