-- ===== src/Sysfile/Create.antt =====
-- sysfile.c: the calls that make inodes, open them or move to them.
use operating_systems_cs.Base.{
  ℕ, ◌%◌, ◌^◌, not, ◌&&◌, ◌||◌, Option, none, some, List, [], ◌∷◌, ◌==◌, if◌then◌else◌,
}
use operating_systems_cs.FileTable.{fd_inode}
use operating_systems_cs.Inode.{t_dir, t_dev, t_sfile}
use operating_systems_cs.Syscall.{argint, argstr}
use operating_systems_cs.Sysfile.{
  Services, M, ◌>>=◌, ◌>>◌, pure, panic, fail, kernel, gets, modify, try, branch, fdalloc, set_cwd,
  arg,
}
use operating_systems_cs.Sysfile.Links.{
  t_file, has_flag, o_wronly, o_rdwr, o_create, o_sfile, raise_link, inode, change_inode, end_fail,
  put_fail,
}

module _ {S : Type 0} (k : Services S) where
  -- `create` where the name is there: `ip`, locked, if it is a file of the kind asked for.
  unfoldable pub take_file : (type ip : ℕ) → M S (Option ℕ)
  take_file type ip = do
    kernel (k.ilock ip)
    i ← inode k ip
    if ((type == t_file) && (i.type == t_file)) || ((type == t_sfile) && (i.type == t_sfile))
        then pure (some ip)
        else (do kernel (k.iunlockput ip); fail)

  -- The entries "." and ".." of the new directory `ip`.
  unfoldable pub link_dots : (dp ip : ℕ) → M S (Unit {0})
  link_dots dp ip = do
    change_inode k dp raise_link
    kernel (k.iupdate dp)
    i ← inode k ip
    dot ← kernel (k.dirlink ip (46 ∷ []) i.inum)
    branch dot panic λ _. do
      d ← inode k dp
      dots ← kernel (k.dirlink ip (46 ∷ 46 ∷ []) d.inum)
      branch dots panic λ _. pure tt

  abbrev pub link_if_dir : (type dp ip : ℕ) → M S (Unit {0})
  link_if_dir type dp ip = if type == t_dir then link_dots dp ip else pure tt

  -- `create` where the name is new.
  unfoldable pub make_inode : (dp : ℕ) (name : List ℕ) (type major minor : ℕ) → M S (Option ℕ)
  make_inode dp name type major minor = do
    parent ← inode k dp
    new ← kernel (k.ialloc parent.dev type)
    branch new panic λ ip. do
      kernel (k.ilock ip)
      change_inode k ip (λ i. record i { major = major; minor = minor; nlink = 1 })
      kernel (k.iupdate ip)
      link_if_dir type dp ip
      i ← inode k ip
      linked ← kernel (k.dirlink dp name i.inum)
      branch linked panic λ _. do kernel (k.iunlockput dp); pure (some ip)

  unfoldable pub create : (path type major minor : ℕ) → M S (Option ℕ)
  create path type major minor = do
    parent ← kernel (k.nameiparent path)
    branch parent fail λ (dp, name). do
      kernel (k.ilock dp)
      entry ← kernel (k.dirlookup dp name)
      branch entry (make_inode dp name type major minor)
          λ (ip, _). do kernel (k.iunlockput dp); take_file type ip

  -- The fields of `f`.
  abbrev pub set_up : (f ip omode : ℕ) → M S (Unit {0})
  set_up f ip omode = modify (λ s.
      k.set_file f
        (record (k.file f s) {
          type = fd_inode;
          ip = ip;
          off = 0;
          readable = not (has_flag omode o_wronly);
          writable = has_flag omode o_wronly || has_flag omode o_rdwr;
        })
        s)

  -- `sys_open` once `ip` is there and locked.
  unfoldable pub open_inode : (ip omode : ℕ) → M S (Option ℕ)
  open_inode ip omode = do
    file ← kernel k.filealloc
    branch file (put_fail k ip) λ f. do
      slot ← fdalloc f
      branch slot (do kernel (k.fileclose f); put_fail k ip)
          λ fd. do kernel (k.iunlock ip); kernel k.end_op; set_up f ip omode; pure (some fd)

  -- `sys_open` of a path that is there, without O_CREATE.
  unfoldable pub open_path : (path omode : ℕ) → M S (Option ℕ)
  open_path path omode = do
    target ← kernel (k.namei path)
    branch target (end_fail k) λ ip. do
      kernel (k.ilock ip)
      i ← inode k ip
      if (i.type == t_dir) && not (omode == 0) then put_fail k ip else open_inode ip omode

  -- With O_CREATE. Where `create` fails it returns without `end_op`.
  unfoldable pub open_new : (path omode : ℕ) → M S (Option ℕ)
  open_new path omode = do
    new ← create path (if has_flag omode o_sfile then t_sfile else t_file) 0 0
    try new λ ip. open_inode ip omode

  unfoldable pub sys_open : M S (Option ℕ)
  sys_open = do
    first ← arg k (λ u. argstr u 0)
    try first λ (path, _). do
      second ← arg k (λ u. argint u 1)
      try second λ omode. do
        kernel k.begin_op
        if has_flag omode o_create then open_new path omode else open_path path omode

  -- The end of `sys_mkdir` and `sys_mknod`.
  abbrev pub finish_new : Option ℕ → M S (Option ℕ)
  finish_new none = end_fail k
  finish_new (some ip) = do kernel (k.iunlockput ip); kernel k.end_op; pure (some 0)

  unfoldable pub sys_mkdir : M S (Option ℕ)
  sys_mkdir = do
    kernel k.begin_op
    first ← arg k (λ u. argstr u 0)
    branch first (end_fail k) λ (path, _). do new ← create path t_dir 0 0; finish_new new

  -- `major` and `minor` are passed on as shorts.
  unfoldable pub make_node : (path : ℕ) → M S (Option ℕ)
  make_node path = do
    second ← arg k (λ u. argint u 1)
    third ← arg k (λ u. argint u 2)
    branch second (end_fail k) λ major.
        branch third (end_fail k)
          λ minor. do new ← create path t_dev (major % 2 ^ 16) (minor % 2 ^ 16); finish_new new

  unfoldable pub sys_mknod : M S (Option ℕ)
  sys_mknod = do
    kernel k.begin_op
    first ← arg k (λ u. argstr u 0)
    branch first (end_fail k) λ (path, _). make_node path

  -- `sys_chdir` to `ip`, with a reference to it.
  unfoldable pub move_to : (ip : ℕ) → M S (Option ℕ)
  move_to ip = do
    kernel (k.ilock ip)
    i ← inode k ip
    if i.type == t_dir
        then (do
          kernel (k.iunlock ip)
          cwd ← gets (λ s. s.cwd)
          kernel (k.iput cwd)
          kernel k.end_op
          set_cwd ip
          pure (some 0))
        else put_fail k ip

  unfoldable pub sys_chdir : M S (Option ℕ)
  sys_chdir = do
    kernel k.begin_op
    first ← arg k (λ u. argstr u 0)
    branch first (end_fail k)
        λ (path, _). do target ← kernel (k.namei path); branch target (end_fail k) λ ip. move_to ip
