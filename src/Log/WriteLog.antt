-- ===== src/Log/WriteLog.antt =====
-- `write_log`: the modified blocks are copied to the log's own blocks.
use operating_systems_cs.Base.{ℕ, zero, suc, ◌+◌, ◌-◌, ◌<◌, ◌≤◌, ◌≡◌, refl, ◌⊎◌, arith}
use operating_systems_cs.Log.Blocks.{BlockIo}
use operating_systems_cs.Log.{Log, write_block, write_rounds}
use operating_systems_cs.Log.Rounds.{Home, Copies, write_block-Copies}

module _ {S : Type 0} (io : BlockIo S) (l : Log) where
  open io use {view, disk, left}

  round :
      (k : ℕ) (s : S)
      → Copies io
          (l.lh.block k)
          (l.start + k + 1)
          (write_rounds io l k s)
          (write_block io l k (write_rounds io l k s))
  round k s = write_block-Copies io l k (write_rounds io l k s)

  -- Blocks other than the first `k` of the log are left alone.
  pub view-write_rounds :
      (k : ℕ) (s : S) (c : ℕ)
      → (c ≤ l.start) ⊎ (l.start + k < c)
      → view (write_rounds io l k s) c ≡ view s c
  unfolding write_rounds
  view-write_rounds zero s c h = refl
  view-write_rounds (suc k) s c h =
      ground (arith, (round k s).view_after c, view-write_rounds k s c)

  pub disk-write_rounds :
      (k : ℕ) (s : S) (c : ℕ)
      → (c ≤ l.start) ⊎ (l.start + k < c)
      → disk (write_rounds io l k s) c ≡ disk s c
  unfolding write_rounds
  disk-write_rounds zero s c h = refl
  disk-write_rounds (suc k) s c h =
      ground (arith, (round k s).disk_after c, disk-write_rounds k s c)

  pub left-write_rounds : (k : ℕ) (s : S) → left (write_rounds io l k s) ≡ left s - k
  unfolding write_rounds
  left-write_rounds zero s = omega arith
  left-write_rounds (suc k) s = omega (arith, (round k s).left_after, left-write_rounds k s)

  -- Each of the first `k` log blocks holds what was seen at its home.
  pub view_log-write_rounds :
      (k : ℕ) (s : S) (j : ℕ)
      → Home l.start k l.lh.block k
      → j < k
      → view (write_rounds io l k s) (l.start + j + 1) ≡ view s (l.lh.block j)
  unfolding write_rounds
  view_log-write_rounds zero s j home h = elim h [ ]
  view_log-write_rounds (suc k) s j home h = ground (
    arith,
    (round k s).view_after (l.start + j + 1),
    view_log-write_rounds k s j (λ i p. ground (arith, home i)),
    home k,
    view-write_rounds k s (l.lh.block k),
  )

  -- On the medium too, if the power lasts.
  pub disk_log-write_rounds :
      (k : ℕ) (s : S) (j : ℕ)
      → Home l.start k l.lh.block k
      → k ≤ left s
      → j < k
      → disk (write_rounds io l k s) (l.start + j + 1) ≡ view s (l.lh.block j)
  unfolding write_rounds
  disk_log-write_rounds zero s j home p h = elim h [ ]
  disk_log-write_rounds (suc k) s j home p h = ground (
    arith,
    (round k s).disk_after (l.start + j + 1),
    disk_log-write_rounds k s j (λ i p. ground (arith, home i)),
    home k,
    view-write_rounds k s (l.lh.block k),
    left-write_rounds k s,
  )
