-- ===== src/Log/Crash.antt =====
-- What log.c promises across power failures.
use operating_systems_cs.Base.{ℕ, ◌+◌, ◌<◌, ◌≡◌, ◌∙◌, ◌≢◌, ◌⊎◌, arith, ltb, if◌then◌else◌}
use mathlib.Core.Path.{fun_ext}
use operating_systems_cs.Log.Blocks.{Block, BlockIo}
use operating_systems_cs.Log.{Log, commit, recover_from_log}
use operating_systems_cs.Log.Rounds.{Home}
use operating_systems_cs.Log.Recovery.{recovered, HomeOnDisk}
use operating_systems_cs.Log.Restart.{
  recovered-recover_from_log, recover_from_log_complete, HomeOnDisk-recover_from_log,
}
use operating_systems_cs.Log.Commit.{committed, recovered-commit, HomeOnDisk-commit}

-- A start from the medium `d`: nothing is cached.
pub record Boot {S : Type 0} (io : BlockIo S) (d : ℕ → Block) (t : S) : Type 0 where
  pub same : (c : ℕ) → io.disk t c ≡ d c
  pub cold : (c : ℕ) → io.view t c ≡ io.disk t c

module _ {S : Type 0} (io : BlockIo S) where
  open io use {view, disk, left}

  -- The block is neither in the log area nor the header.
  abbrev pub OutsideLog : Log → ℕ → Type 0
  OutsideLog l c = (c < l.start) ⊎ (l.start + l.lh.n < c)

  module _ (l : Log) (t : S) (d : ℕ → Block) (start c : ℕ) (boot : Boot io d t)
      (e : l.start ≡ start) (home : HomeOnDisk start d) (ne : c ≢ start) where
    medium : disk t ≡ d
    medium = fun_ext boot.same

    home_boot : HomeOnDisk l.start (disk t)
    home_boot = rw (e, medium) home

    -- A recovery that may be cut off keeps what the medium stands for.
    recovered-boot : recovered start (disk (recover_from_log io l t).1) c ≡ recovered start d c
    recovered-boot =
        rw (← e, ← medium) (recovered-recover_from_log io l t boot.cold home_boot c (rw e ne))

    HomeOnDisk-boot : HomeOnDisk start (disk (recover_from_log io l t).1)
    HomeOnDisk-boot = rw (← e) (HomeOnDisk-recover_from_log io l t boot.cold home_boot)

    -- A whole recovery makes it so.
    complete-boot : d start 0 < left t → disk (recover_from_log io l t).1 c ≡ recovered start d c
    complete-boot p =
        rw (← e, ← medium)
          ((recover_from_log_complete io l t boot.cold home_boot (rw (e, medium) p)).0 c (rw e ne))

  module _ (l : Log) (s : S) (home : Home l.start l.lh.n l.lh.block l.lh.n)
      (erased : disk s l.start 0 ≡ 0) where
    -- A commit is atomic across power failures: let a commit of a log with home blocks only, over a
    -- medium with an erased header, be cut off after any number of writes, a recovery after it be
    -- cut off anywhere, and a second recovery run to its end; then every block outside the log
    -- holds the old contents, or, exactly if more than lh.n writes of the commit reached the medium
    -- (the header is written), the contents with the whole transaction in place.
    pub crash_safe :
        (lt lu : Log) (t u : S) (c : ℕ)
        → Boot io (disk (commit io l s).1) t
        → lt.start ≡ l.start
        → Boot io (disk (recover_from_log io lt t).1) u
        → lu.start ≡ l.start
        → disk u l.start 0 < left u
        → OutsideLog l c
        → disk (recover_from_log io lu u).1 c
          ≡ (if ltb l.lh.n (left s) then committed io l s home c else disk s c)
    crash_safe lt lu t u c bt et bu eu room out =
        let ne : c ≢ l.start = ground arith in
        let home_t = HomeOnDisk-commit io l s home erased in
        complete-boot lu u (disk (recover_from_log io lt t).1) l.start c bu eu
          (HomeOnDisk-boot lt t (disk (commit io l s).1) l.start c bt et home_t ne) ne
          (rw (← bu.same l.start) room)
        ∙ recovered-boot lt t (disk (commit io l s).1) l.start c bt et home_t ne
        ∙ recovered-commit io l s home erased c out
