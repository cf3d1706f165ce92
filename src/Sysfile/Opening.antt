-- ===== src/Sysfile/Opening.antt =====
-- The calls of sysfile.c that make or open inodes give back what they take, but for `sys_open` where
-- `create` fails.
use operating_systems_cs.Base.{
  ℕ, suc, ◌≡◌, refl, ◌∙◌, Bool, true, Option, none, some, List, ◌==◌, if◌then◌else◌,
}
use operating_systems_cs.Inode.{t_dir, t_dev, t_sfile}
use operating_systems_cs.Syscall.{argint, argstr}
use operating_systems_cs.Sysfile.{Services, State, ◌>>=◌, pure, kernel, try, gets}
use operating_systems_cs.Sysfile.Laws.{Laws}
use operating_systems_cs.Sysfile.Ledger.{
  Counts, plus, Ledger, Held, at, holds, look, look-holds, at_inj, Ends, >>=-some, Takes, Leaves,
  with_locked, swap_refs, swap_locks, use_call, bind, Takes-pure, Takes-panic, Takes-gets, Takes-if,
  Takes-branch, bind-branch, Takes-map, Takes-set_cwd, bind-cwd, Takes-result,
}
use operating_systems_cs.Sysfile.Balance.{
  change_lem, end_fail_lem, put_fail_lem, sys_link_lem, sys_unlink_lem,
}
use operating_systems_cs.Sysfile.Links.{
  t_file, has_flag, o_create, o_sfile, raise_link, sys_link, sys_unlink,
}
use operating_systems_cs.Sysfile.Create.{
  take_file, link_dots, make_inode, create, open_inode, open_new, sys_open, finish_new, sys_mkdir,
  make_node, sys_mknod, move_to, sys_chdir,
}

-- How `sys_open` may end: a descriptor comes with the reference that its file keeps; a failure gives
-- all back, or, if it was asked to create the file, may leave the transaction open.
pub data Opened (creates : Bool) (w d : ℕ) (r l : Counts) : Option ℕ → Held → Type 0 where
  opens : {fd : ℕ} (ip : ℕ) → Opened creates w d r l (some fd) (at w (holds d (plus ip r) l))
  fails : Opened creates w d r l none (at w (holds d r l))
  stays_open : creates ≡ true → Opened creates w d r l none (at w (holds (suc d) r l))

-- The reference to `ip` is kept if there is a result.
abbrev with_file : (ip w d : ℕ) (r l : Counts) → Option ℕ → Held
with_file ip w d r l none = at w (holds d r l)
with_file ip w d r l (some fd) = at w (holds d (plus ip r) l)

-- What is held is a reference to the directory of the process, which may be another one than before,
-- and what stands here.
pub Balanced : (d : ℕ) (r l : Counts) → Held → Type 0
Balanced d r l (at w held) = held ≡ holds d (plus w r) l

pub Keeps :
    {S : Type 0} → (S → Ledger) → (d : ℕ) (r l : Counts) → Option (Option ℕ × State S) → Type 0
Keeps view d r l = Ends view (λ _. Balanced d r l)

balance :
    {w d : ℕ} (r : Counts) {l : Counts} (res : Option ℕ) (held : Held)
    → held ≡ at w (holds d (plus w r) l)
    → Balanced d r l held
unfolding Balanced
balance r res held e = rw e refl

module _ {S : Type 0} (k : Services S) (view : S → Ledger) (laws : Laws k view) where
  take_file_lem :
      {w d : ℕ} {r l : Counts} (type ip : ℕ)
      → Takes view
          (at w (holds (suc d) (plus ip r) l))
          (take_file k type ip)
          (Leaves (λ o. at w (with_locked (suc d) r l o)))
  unfolding take_file
  take_file_lem type ip = bind view (use_call view (laws.ilock_law _ _ _ ip)) λ _.
      bind view (Takes-gets view _) λ i.
        Takes-if view _ (Takes-pure view (some ip) refl)
          (bind view (use_call view (laws.iunlockput_law _ _ _ ip)) λ _. Takes-pure view none refl)

  link_dots_lem :
      {w d : ℕ} {r : Counts} (l : Counts) (dp ip : ℕ)
      → Takes view
          (at w (holds (suc d) r (plus ip (plus dp l))))
          (link_dots k dp ip)
          (Leaves (λ _. at w (holds (suc d) r (plus ip (plus dp l)))))
  unfolding link_dots
  link_dots_lem l dp ip = swap_locks view ip dp _ (
      bind view (change_lem k view laws dp raise_link) λ _.
        bind view (use_call view (laws.iupdate_law _ _ _ dp)) λ _. swap_locks view dp ip _ (
          bind view (Takes-gets view _) λ i.
            bind-branch view (use_call view (laws.dirlink_law _ _ _ ip _ _)) (Takes-panic view) λ _.
              bind view (Takes-gets view _) λ i.
                bind-branch view (use_call view (laws.dirlink_law _ _ _ ip _ _)) (Takes-panic view)
                  λ _. Takes-pure view tt refl))

  make_inode_lem :
      {w d : ℕ} {r l : Counts} (dp : ℕ) (name : List ℕ) (type major minor : ℕ)
      → Takes view
          (at w (holds (suc d) (plus dp r) (plus dp l)))
          (make_inode k dp name type major minor)
          (Leaves (λ o. at w (with_locked (suc d) r l o)))
  unfolding make_inode
  make_inode_lem dp name type major minor = bind view (Takes-gets view _) λ parent.
      bind-branch view (use_call view (laws.ialloc_law _ _ _ _ type)) (Takes-panic view) λ ip.
        bind view (use_call view (laws.ilock_law _ _ _ ip)) λ _.
          bind view
            (change_lem k view laws ip (λ i. record i { major = major; minor = minor; nlink = 1 }))
            λ _. bind view (use_call view (laws.iupdate_law _ _ _ ip)) λ _.
              bind view
                (Takes-if view (type == t_dir) (link_dots_lem _ dp ip) (Takes-pure view tt refl))
                λ _. bind view (Takes-gets view _) λ i. swap_refs view ip dp _ (
                  swap_locks view ip dp _ (
                    bind-branch view (use_call view (laws.dirlink_law _ _ _ dp name _))
                      (Takes-panic view)
                      λ _.
                        bind view (use_call view (laws.iunlockput_law _ _ _ dp))
                          λ _. Takes-pure view (some ip) refl))

  create_lem :
      {w d : ℕ} {r l : Counts} (path type major minor : ℕ)
      → Takes view
          (at w (holds (suc d) r l))
          (create k path type major minor)
          (Leaves (λ o. at w (with_locked (suc d) r l o)))
  unfolding create
  create_lem path type major minor =
      bind-branch view (use_call view (laws.nameiparent_law _ _ _ path)) (Takes-pure view none refl)
        λ (dp, name). bind view (use_call view (laws.ilock_law _ _ _ dp)) λ _.
          bind-branch view (use_call view (laws.dirlookup_law _ _ _ dp name))
            (make_inode_lem dp name type major minor)
            λ (ip, _).
              swap_refs view ip dp _ (
                bind view (use_call view (laws.iunlockput_law _ _ _ dp)) λ _. take_file_lem type ip)

  finish_new_lem :
      {w d : ℕ} {r l : Counts} (new : Option ℕ)
      → Takes view
          (at w (with_locked (suc d) r l new))
          (finish_new k new)
          (Leaves (λ _. at w (holds d r l)))
  finish_new_lem none = end_fail_lem k view laws refl
  finish_new_lem (some ip) =
      bind view (use_call view (laws.iunlockput_law _ _ _ ip))
        λ _. bind view (use_call view (laws.end_op_law _ _ _)) λ _. Takes-pure view (some 0) refl

  sys_mkdir_lem :
      {w d : ℕ} {r l : Counts}
      → Takes view (at w (holds d r l)) (sys_mkdir k) (Leaves (λ _. at w (holds d r l)))
  unfolding sys_mkdir
  sys_mkdir_lem = bind view (use_call view (laws.begin_op_law _ _ _)) λ _.
      bind-branch view (Takes-gets view _) (end_fail_lem k view laws refl)
        λ (path, _). bind view (create_lem path t_dir 0 0) finish_new_lem

  make_node_lem :
      {w d : ℕ} {r l : Counts} (path : ℕ)
      → Takes view (at w (holds (suc d) r l)) (make_node k path) (Leaves (λ _. at w (holds d r l)))
  unfolding make_node
  make_node_lem path = bind view (Takes-gets view _) λ second.
      bind view (Takes-gets view _) λ third.
        Takes-branch view second (end_fail_lem k view laws refl) λ major.
          Takes-branch view third (end_fail_lem k view laws refl)
            λ minor. bind view (create_lem path t_dev _ _) finish_new_lem

  sys_mknod_lem :
      {w d : ℕ} {r l : Counts}
      → Takes view (at w (holds d r l)) (sys_mknod k) (Leaves (λ _. at w (holds d r l)))
  unfolding sys_mknod
  sys_mknod_lem = bind view (use_call view (laws.begin_op_law _ _ _)) λ _.
      bind-branch view (Takes-gets view _) (end_fail_lem k view laws refl)
        λ (path, _). make_node_lem path

  move_to_lem :
      {w d : ℕ} (r : Counts) {l : Counts} (ip : ℕ)
      → Takes view
          (at w (holds (suc d) (plus ip (plus w r)) l))
          (move_to k ip)
          (λ _. Balanced d r l)
  unfolding move_to
  move_to_lem {w} r ip = bind view (use_call view (laws.ilock_law _ _ _ ip)) λ _.
      bind view (Takes-gets view _) λ i.
        Takes-if view (i.type == t_dir)
          (bind view (use_call view (laws.iunlock_law _ _ _ ip)) λ _. bind-cwd view _ (
            swap_refs view ip w r (
              bind view (use_call view (laws.iput_law _ _ _ w)) λ _.
                bind view (use_call view (laws.end_op_law _ _ _)) λ _.
                  bind view (Takes-set_cwd view ip)
                    λ _. Takes-pure view (some 0) (balance r (some 0) _ refl))))
          (put_fail_lem k view laws _ _ ip (balance r none _ refl))

  sys_chdir_lem :
      {w d : ℕ} (r : Counts) {l : Counts}
      → Takes view (at w (holds d (plus w r) l)) (sys_chdir k) (λ _. Balanced d r l)
  unfolding sys_chdir
  sys_chdir_lem r = bind view (use_call view (laws.begin_op_law _ _ _)) λ _.
      bind-branch view (Takes-gets view _) (end_fail_lem k view laws (balance r none _ refl))
        λ (path, _).
          bind-branch view (use_call view (laws.namei_law _ _ _ path))
            (end_fail_lem k view laws (balance r none _ refl)) λ ip. move_to_lem r ip

  -- With a kernel whose calls count what they take, and for a process that has a reference to its
  -- directory, sys_link, sys_unlink, sys_mkdir, sys_mknod and sys_chdir give back, on every path on
  -- which they do not panic, each transaction that they begin, and for each inode the references to
  -- it and its locks that they take, but for the reference to the directory that the process then
  -- has; and they make the calls that need a transaction, or a reference to an inode or its lock,
  -- only while they have it.
  pub path_calls_lem :
      (d : ℕ) (r l : Counts) (s : State S)
      → view s.kernel ≡ holds d (plus s.cwd r) l
      → Keeps view d r l (sys_link k s)
        × Keeps view d r l (sys_unlink k s)
        × Keeps view d r l (sys_mkdir k s)
        × Keeps view d r l (sys_mknod k s)
        × Keeps view d r l (sys_chdir k s)
  unfolding Keeps
  path_calls_lem d r l s h =
      let now = look-holds view s h in
      (
        (Takes-map view (balance r) (sys_link_lem k view laws d _ l)).run s now,
        (Takes-map view (balance r) (sys_unlink_lem k view laws d _ l)).run s now,
        (Takes-map view (balance r) sys_mkdir_lem).run s now,
        (Takes-map view (balance r) sys_mknod_lem).run s now,
        (sys_chdir_lem r).run s now,
      )

  -- With such a kernel and its arguments there, sys_open with O_CREATE where create fails returns
  -- -1 with its transaction open: one more is begun than before, and the references and locks are
  -- those that were held.
  pub sys_open-stays_open :
      (d : ℕ) (r l : Counts) (path len omode : ℕ) (s s' s'' : State S)
      → argstr (k.user s.kernel) 0 ≡ some (path, len)
      → argint (k.user s.kernel) 1 ≡ some omode
      → has_flag omode o_create ≡ true
      → kernel k.begin_op s ≡ some (tt, s')
      → create k path (if has_flag omode o_sfile then t_sfile else t_file) 0 0 s' ≡ some (none, s'')
      → view s.kernel ≡ holds d r l
      → (sys_open k s ≡ some (none, s'')) × (view s''.kernel ≡ holds (suc d) r l)
  unfolding sys_open open_new gets try pure ◌>>=◌ look
  sys_open-stays_open d r l path len omode s s' s'' a b c e f h = (
    rw (a, b, c)
        (>>=-some (kernel k.begin_op) (λ _. open_new k path omode) s s' tt e
          ∙ >>=-some (create k path (if has_flag omode o_sfile then t_sfile else t_file) 0 0)
              (λ new. try new λ ip. open_inode k ip omode) s' s'' none f),
    (at_inj (
        Takes-result view s' s'' none (create_lem path _ 0 0)
          (Takes-result view s s' tt (use_call view (laws.begin_op_law d r l)) (look-holds view s h)
            e)
          f)).1,
  )
