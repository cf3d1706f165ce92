-- ===== src/Log/Restart.antt =====
-- `recover_from_log`, just after a start: the cache holds nothing, so what is seen is the disk.
use mathlib.Core.Path.{fun_ext}
use native.Mathlib.Decide.{dec_lt}
use operating_systems_cs.Base.{ℕ, ◌+◌, ◌<◌, ◌≡◌, refl, sym, ap, ◌∙◌, ◌≢◌, arith}
use operating_systems_cs.Log.Blocks.{BlockIo}
use operating_systems_cs.Log.{Log, clear, read_head, recover_from_log}
use operating_systems_cs.Log.Rounds.{replay, Home}
use operating_systems_cs.Log.Header.{
  Says, read_head-Says, start-read_head, view-read_head, disk-read_head, left-read_head,
}
use operating_systems_cs.Log.Recovery.{
  recovered, recovered-Says, HomeOnDisk, HomeOnDisk-zero, HomeOnDisk-Says, finish-zero,
  finish-header, finish-replay, recovered-finish,
}

module _ {S : Type 0} (io : BlockIo S) (l : Log) (s : S)
    (cold : (c : ℕ) → io.view s c ≡ io.disk s c) (home : HomeOnDisk l.start (io.disk s)) where
  open io use {view, disk, left}

  Says-read : Says (read_head io l s).0 (disk (read_head io l s).1 l.start)
  Says-read = rw (disk-read_head io l s l.start, ← cold l.start) (read_head-Says io l s)

  n-read : (read_head io l s).0.lh.n ≡ disk s l.start 0
  n-read = cc (Says-read.n_says, disk-read_head io l s l.start)

  home_read : let l' = (read_head io l s).0 in Home l'.start l'.lh.n l'.lh.block l'.lh.n
  home_read j p = ground (
    arith,
    home j,
    Says-read.block_says j,
    n-read,
    start-read_head io l s,
    disk-read_head io l s l.start,
  )

  clean_read :
      (j : ℕ)
      → view (read_head io l s).1 (l.start + j + 1) ≡ disk (read_head io l s).1 (l.start + j + 1)
  clean_read j = view-read_head io l s _ ∙ cold _ ∙ sym (disk-read_head io l s _)

  disk_read : disk (read_head io l s).1 ≡ disk s
  disk_read = fun_ext (disk-read_head io l s)

  replay_read :
      (c : ℕ)
      → let l' = (read_head io l s).0 in
        replay l'.start l'.lh.block l'.lh.n (disk (read_head io l s).1) c
        ≡ recovered l.start (disk s) c
  unfolding read_head
  replay_read c =
      sym (recovered-Says (read_head io l s).0 (disk (read_head io l s).1) c Says-read)
      ∙ ap (λ d. recovered l.start d c) disk_read

  -- Recovery may itself be cut off anywhere: the disk stands for the same file system after it.
  pub recovered-recover_from_log :
      (c : ℕ)
      → c ≢ l.start
      → recovered l.start (disk (recover_from_log io l s).1) c ≡ recovered l.start (disk s) c
  unfolding recover_from_log read_head
  recovered-recover_from_log c h =
      recovered-finish io (read_head io l s).0 (read_head io l s).1 home_read (λ j q. clean_read j)
        c h Says-read
      ∙ replay_read c

  -- Uninterrupted recovery leaves every block as the replay of the log has it, and an empty log.
  pub recover_from_log_complete :
      disk s l.start 0 < left s
      → ((c : ℕ) → c ≢ l.start → disk (recover_from_log io l s).1 c ≡ recovered l.start (disk s) c)
        × (disk (recover_from_log io l s).1 l.start 0 ≡ 0)
        × ((recover_from_log io l s).0.lh.n ≡ 0)
  unfolding recover_from_log read_head clear
  recover_from_log_complete p =
      let room : (read_head io l s).0.lh.n < left (read_head io l s).1 =
        omega (arith, n-read, left-read_head io l s) in
      (
        λ c h.
            finish-replay io (read_head io l s).0 (read_head io l s).1 home_read
              (λ j q. clean_read j) c h (omega arith)
            ∙ replay_read c,
        finish-zero io (read_head io l s).0 (read_head io l s).1 home_read room,
        refl,
      )

  -- A recovery that is cut off leaves a disk that can be recovered.
  pub HomeOnDisk-recover_from_log : HomeOnDisk l.start (disk (recover_from_log io l s).1)
  unfolding recover_from_log read_head
  HomeOnDisk-recover_from_log = elim (dec_lt l'.lh.n (left s')) [
    | yes p ↦
        HomeOnDisk-zero l.start (disk (recover_from_log io l s).1)
          (finish-zero io l' s' home_read p)
    | no p ↦
        HomeOnDisk-Says l' (disk (recover_from_log io l s).1)
          (rw (finish-header io l' s' home_read (omega arith)) Says-read) home_read
  ]
    where
      l' : Log
      l' = (read_head io l s).0

      s' : S
      s' = (read_head io l s).1
