-- ===== src/Log/Commit.antt =====
-- `commit`: the modified blocks reach the disk together or not at all.
use operating_systems_cs.Base.{
  ℕ, ◌+◌, ◌-◌, ◌<◌, ◌≤◌, ◌≡◌, sym, ◌∙◌, ◌⊎◌, arith, ltb, if◌then◌else◌, lt→ltb, Bool-cases, inl,
  inr, ltb→lt, ltb→le,
}
use native.Mathlib.Decide.{dec_lt}
use operating_systems_cs.Log.Blocks.{Block, BlockIo}
use operating_systems_cs.Log.{Log, write_log, write_head, commit, commit_all}
use operating_systems_cs.Log.Rounds.{listed, Home, replay, replay-eq-if_listed}
use operating_systems_cs.Log.Header.{
  Says, view-write_head, disk-write_head, disk-write_head_dead, left-write_head, write_head-Says,
}
use operating_systems_cs.Log.WriteLog.{
  disk-write_rounds, left-write_rounds, view_log-write_rounds, disk_log-write_rounds,
}
use operating_systems_cs.Log.Recovery.{
  recovered, recovered_of_zero, HomeOnDisk, HomeOnDisk-zero, HomeOnDisk-Says, finish, finish-zero,
  finish-header, finish-dead, finish-replay, recovered-finish,
}

module _ {S : Type 0} (io : BlockIo S) (l : Log) (s : S)
    (home : Home l.start l.lh.n l.lh.block l.lh.n) where
  open io use {view, disk, left}

  -- The file system with the transaction's blocks in place.
  unfoldable pub committed : ℕ → Block
  committed c = if listed l.lh.block l.lh.n c then view s c else disk s c

  -- An empty log commits nothing.
  nothing :
      l.lh.n ≡ 0 → (c : ℕ) → disk s c ≡ (if ltb l.lh.n (left s) then committed c else disk s c)
  unfolding committed listed
  nothing e c = rw (e, listed) (ground arith)

  nothing_room : l.lh.n ≡ 0 → l.lh.n + l.lh.n + 1 < left s → (c : ℕ) → disk s c ≡ committed c
  nothing_room e q c = nothing e c ∙ rw (lt→ltb l.lh.n (left s) (omega arith))

  -- The state when the header has been written: the commit point.
  abbrev logged : S
  logged = write_head io l (write_log io l s)

  left-write_log : left (write_log io l s) ≡ left s - l.lh.n
  unfolding write_log
  left-write_log = left-write_rounds io l l.lh.n s

  disk-logged : (c : ℕ) → (c < l.start) ⊎ (l.start + l.lh.n < c) → disk logged c ≡ disk s c
  unfolding write_log
  disk-logged c h =
      disk-write_head io l (write_log io l s) c (ground arith)
      ∙ disk-write_rounds io l l.lh.n s c (ground arith)

  module _ (power : l.lh.n < left s) where
    log-logged : (j : ℕ) → j < l.lh.n → disk logged (l.start + j + 1) ≡ view s (l.lh.block j)
    unfolding write_log
    log-logged j p =
        disk-write_head io l (write_log io l s) _ (omega arith)
        ∙ disk_log-write_rounds io l l.lh.n s j home (omega arith) p

    clean-logged :
        (j : ℕ) → j < l.lh.n → view logged (l.start + j + 1) ≡ disk logged (l.start + j + 1)
    unfolding write_log
    clean-logged j p =
        view-write_head io l (write_log io l s) _ (omega arith)
        ∙ view_log-write_rounds io l l.lh.n s j home p
        ∙ sym (log-logged j p)

    logged-Says : Says l (disk logged l.start)
    logged-Says = write_head-Says io l (write_log io l s) (omega (arith, left-write_log))

    replay-logged :
        (c : ℕ)
        → (c < l.start) ⊎ (l.start + l.lh.n < c)
        → replay l.start l.lh.block l.lh.n (disk logged) c ≡ committed c
    unfolding committed
    replay-logged c h =
        replay-eq-if_listed l.start l.lh.block (view s) (disk logged) l.lh.n c log-logged
        ∙ rw (disk-logged c h)

  -- Without the power for the header the disk stays as it was.
  module _ (short : left s ≤ l.lh.n) where
    dead-logged : (c : ℕ) → disk logged c ≡ disk (write_log io l s) c
    dead-logged c = disk-write_head_dead io l (write_log io l s) c (omega (arith, left-write_log))

    dead-finish :
        (c : ℕ)
        → (c ≤ l.start) ⊎ (l.start + l.lh.n < c)
        → disk (finish io l logged home) c ≡ disk s c
    unfolding write_log
    dead-finish c h =
        finish-dead io l logged home c
          (omega (arith, left-write_log, left-write_head io l (write_log io l s)))
        ∙ dead-logged c
        ∙ disk-write_rounds io l l.lh.n s c h

  commit-eq-finish : 0 < l.lh.n → (commit io l s).1 ≡ finish io l logged home
  unfolding commit commit_all
  commit-eq-finish p = ground arith

  commit_empty : l.lh.n ≡ 0 → (commit io l s).1 ≡ s
  unfolding commit
  commit_empty p = ground arith

  module _ (erased : disk s l.start 0 ≡ 0) where
    recovered-commit_all :
        (c : ℕ)
        → (c < l.start) ⊎ (l.start + l.lh.n < c)
        → recovered l.start (disk (finish io l logged home)) c
          ≡ (if ltb l.lh.n (left s) then committed c else disk s c)
    recovered-commit_all c h = elim (Bool-cases (ltb l.lh.n (left s))) [
      | inl p ↦
          let power = ltb→lt _ _ p in
          rw p (
            recovered-finish io l logged home (clean-logged power) c (ground arith)
              (logged-Says power)
            ∙ replay-logged power c h)
      | inr p ↦
          let short = ltb→le _ _ p in
          rw p (
            recovered_of_zero l.start _ c
              (cc (dead-finish short l.start (inl (omega arith)), erased))
            ∙ dead-finish short c (ground arith))
    ]

    -- Uninterrupted, `commit` leaves the transaction's blocks on the medium and an empty log.
    disk-commit_all :
        (c : ℕ)
        → (c < l.start) ⊎ (l.start + l.lh.n < c)
        → l.lh.n + l.lh.n + 1 < left s
        → (disk (finish io l logged home) c ≡ committed c)
          × (disk (finish io l logged home) l.start 0 ≡ 0)
    disk-commit_all c h p =
        let power : l.lh.n < left s = omega arith in
        let room : l.lh.n < left logged =
          omega (arith, left-write_log, left-write_head io l (write_log io l s)) in
        (
          finish-replay io l logged home (clean-logged power) c (ground arith) (omega arith)
              ∙ replay-logged power c h,
          finish-zero io l logged home room,
        )

    HomeOnDisk-commit_all : HomeOnDisk l.start (disk (finish io l logged home))
    HomeOnDisk-commit_all = elim (dec_lt l.lh.n (left s)) [
      | yes power ↦ elim (dec_lt l.lh.n (left logged)) [
        | yes room ↦
            HomeOnDisk-zero l.start (disk (finish io l logged home))
              (finish-zero io l logged home room)
        | no rest ↦
            HomeOnDisk-Says l (disk (finish io l logged home))
              (rw (finish-header io l logged home (ground arith)) (logged-Says power)) home
      ]
      | no short ↦
          HomeOnDisk-zero l.start (disk (finish io l logged home))
            (cc (dead-finish (omega arith) l.start (inl (omega arith)), erased))
    ]

    -- Wherever the power fails, the disk stands for the old file system or for the new one: the new
    -- one exactly if the header has been written.
    pub recovered-commit :
        (c : ℕ)
        → (c < l.start) ⊎ (l.start + l.lh.n < c)
        → recovered l.start (disk (commit io l s).1) c
          ≡ (if ltb l.lh.n (left s) then committed c else disk s c)
    unfolding committed listed
    recovered-commit c h = elim (dec_lt 0 l.lh.n) [
      | yes p ↦ rw (commit-eq-finish p) (recovered-commit_all c h)
      | no p ↦
          let e : l.lh.n ≡ 0 = omega arith in
          rw (commit_empty e) (recovered_of_zero l.start (disk s) c erased ∙ nothing e c)
    ]

    -- From a medium whose header is erased, and with no listed block in the log area, a commit with
    -- power for all its writes leaves each block outside the log with its committed contents on the
    -- medium, and the header erased.
    pub disk-commit :
        (c : ℕ)
        → (c < l.start) ⊎ (l.start + l.lh.n < c)
        → l.lh.n + l.lh.n + 1 < left s
        → (disk (commit io l s).1 c ≡ committed c) × (disk (commit io l s).1 l.start 0 ≡ 0)
    disk-commit c h q = elim (dec_lt 0 l.lh.n) [
      | yes p ↦ rw (commit-eq-finish p) (disk-commit_all c h q)
      | no p ↦ let e : l.lh.n ≡ 0 = omega arith in rw (commit_empty e) (nothing_room e q c, erased)
    ]

    -- A disk that a commit leaves, cut off or not, can be recovered.
    pub HomeOnDisk-commit : HomeOnDisk l.start (disk (commit io l s).1)
    HomeOnDisk-commit = elim (dec_lt 0 l.lh.n) [
      | yes p ↦ rw (commit-eq-finish p) HomeOnDisk-commit_all
      | no p ↦ rw (commit_empty (omega arith)) (HomeOnDisk-zero l.start (disk s) erased)
    ]
