-- ===== src/Sysfile/Links.antt =====
-- sysfile.c: `sys_link` and `sys_unlink`, which change the names of an inode within one transaction.
use operating_systems_cs.Base.{
  ℕ, zero, suc, ◌+◌, ◌-◌, ◌/◌, ◌%◌, ◌^◌, Bool, true, false, not, ◌&&◌, ◌||◌, Option, some, List, [],
  ◌∷◌, ltb, ◌==◌, if◌then◌else◌,
}
use operating_systems_cs.Inode.{Inode, t_dir}
use operating_systems_cs.Syscall.{argstr}
use operating_systems_cs.Sysfile.{
  Services, M, ◌>>=◌, ◌>>◌, pure, panic, fail, kernel, gets, modify, try, branch, arg,
}

abbrev pub t_file : ℕ
t_file = 2

-- The name is "." or "..".
abbrev pub is_dots : List ℕ → Bool
is_dots (a ∷ []) = a == 46
is_dots (a ∷ b ∷ []) = (a == 46) && (b == 46)
is_dots name = false

-- `omode & flag`, for a flag of one bit.
abbrev pub has_flag : (omode flag : ℕ) → Bool
has_flag omode flag = (omode / flag) % 2 == 1

abbrev pub o_wronly : ℕ
o_wronly = 1

abbrev pub o_rdwr : ℕ
o_rdwr = 2

abbrev pub o_create : ℕ
o_create = 512

abbrev pub o_sfile : ℕ
o_sfile = 1024

-- `ip->nlink` is a short.
abbrev pub raise_link : Inode → Inode
raise_link ip = record ip { nlink = (ip.nlink + 1) % 2 ^ 16 }

abbrev pub drop_link : Inode → Inode
drop_link ip = record ip { nlink = (ip.nlink + 2 ^ 16 - 1) % 2 ^ 16 }

-- `ip->nlink < 1`, of a short.
abbrev pub has_no_link : Inode → Bool
has_no_link ip = (ip.nlink == 0) || not (ltb ip.nlink (2 ^ 15))

-- `de.inum != 0`, of the bytes of an entry.
abbrev pub is_used : List ℕ → Bool
is_used (a ∷ b ∷ bs) = not ((a == 0) && (b == 0))
is_used bs = false

-- Entries of 16 bytes from the third on. An entry that stands partly past the end counts.
abbrev pub entries_left : (size : ℕ) → ℕ
entries_left size = (size - 32 + 15) / 16

abbrev pub length_16 : List ℕ → Bool
length_16 (_ ∷ _ ∷ _ ∷ _ ∷ _ ∷ _ ∷ _ ∷ _ ∷ _ ∷ _ ∷ _ ∷ _ ∷ _ ∷ _ ∷ _ ∷ _ ∷ []) = true
length_16 bs = false

abbrev pub empty_entry : List ℕ
empty_entry = 0 ∷ 0 ∷ 0 ∷ 0 ∷ 0 ∷ 0 ∷ 0 ∷ 0 ∷ 0 ∷ 0 ∷ 0 ∷ 0 ∷ 0 ∷ 0 ∷ 0 ∷ 0 ∷ []

module _ {S : Type 0} (k : Services S) where
  abbrev pub inode : ℕ → M S Inode
  inode ip = gets (λ s. k.inode ip s.kernel)

  abbrev pub change_inode : ℕ → (Inode → Inode) → M S (Unit {0})
  change_inode ip f = modify (λ s. k.set_inode ip (f (k.inode ip s)) s)

  -- The end of a call that fails within its transaction.
  abbrev pub end_fail : M S (Option ℕ)
  end_fail = do kernel k.end_op; fail

  abbrev pub put_fail : ℕ → M S (Option ℕ)
  put_fail ip = do kernel (k.iunlockput ip); end_fail

  -- The loop of `isdirempty` at `off`, for `left` entries.
  unfoldable pub scan_entries : (dp left off : ℕ) → M S Bool
  scan_entries dp zero off = pure true
  scan_entries dp (suc left) off = do
    read ← kernel (k.readi dp off 16)
    branch read panic λ bs.
        if length_16 bs
        then (if is_used bs then pure false else scan_entries dp left (off + 16))
        else panic

  unfoldable pub isdirempty : (dp : ℕ) → M S Bool
  isdirempty dp = do d ← inode dp; scan_entries dp (entries_left d.size) 32

  -- The label `bad` of `sys_link`.
  unfoldable pub undo_link : (ip : ℕ) → M S (Option ℕ)
  undo_link ip = do
    kernel (k.ilock ip)
    change_inode ip drop_link
    kernel (k.iupdate ip)
    put_fail ip

  -- `dp->dev != ip->dev || dirlink(dp, name, ip->inum) < 0`
  abbrev pub link_entry : (dp ip : ℕ) (name : List ℕ) → M S (Option (Unit {0}))
  link_entry dp ip name = do
    d ← inode dp
    i ← inode ip
    if d.dev == i.dev then kernel (k.dirlink dp name i.inum) else fail

  unfoldable pub link_name : (ip new : ℕ) → M S (Option ℕ)
  link_name ip new = do
    parent ← kernel (k.nameiparent new)
    branch parent (undo_link ip) λ (dp, name). do
      kernel (k.ilock dp)
      linked ← link_entry dp ip name
      branch linked (do kernel (k.iunlockput dp); undo_link ip)
          λ _. do kernel (k.iunlockput dp); kernel (k.iput ip); kernel k.end_op; pure (some 0)

  -- After `begin_op`.
  unfoldable pub link_paths : (old new : ℕ) → M S (Option ℕ)
  link_paths old new = do
    target ← kernel (k.namei old)
    branch target end_fail λ ip. do
      kernel (k.ilock ip)
      i ← inode ip
      if i.type == t_dir then put_fail ip else (do
        change_inode ip raise_link
        kernel (k.iupdate ip)
        kernel (k.iunlock ip)
        link_name ip new)

  unfoldable pub sys_link : M S (Option ℕ)
  sys_link = do
    first ← arg k (λ u. argstr u 0)
    try first λ (old, _). do
      second ← arg k (λ u. argstr u 1)
      try second λ (new, _). do kernel k.begin_op; link_paths old new

  -- A directory that goes has no entry ".." for its parent any more.
  abbrev pub drop_parent : (type dp : ℕ) → M S (Unit {0})
  drop_parent type dp =
      if type == t_dir then (do change_inode dp drop_link; kernel (k.iupdate dp)) else pure tt

  -- The entry at `off` of `dp` is that of `ip`; both are locked.
  unfoldable pub remove_entry : (dp ip off : ℕ) → M S (Option ℕ)
  remove_entry dp ip off = do
    written ← kernel (k.writei dp empty_entry off)
    branch written panic λ n.
        if n == 16
        then (do
          i ← inode ip
          drop_parent i.type dp
          kernel (k.iunlockput dp)
          change_inode ip drop_link
          kernel (k.iupdate ip)
          kernel (k.iunlockput ip)
          kernel k.end_op
          pure (some 0))
        else panic

  unfoldable pub unlink_entry : (dp ip off : ℕ) → M S (Option ℕ)
  unlink_entry dp ip off = do
    kernel (k.ilock ip)
    i ← inode ip
    if has_no_link i then panic else (do
      empty ← (if i.type == t_dir then isdirempty ip else pure true)
      if empty then remove_entry dp ip off else (do kernel (k.iunlockput ip); put_fail dp))

  unfoldable pub sys_unlink : M S (Option ℕ)
  sys_unlink = do
    first ← arg k (λ u. argstr u 0)
    try first λ (path, _). do
      kernel k.begin_op
      parent ← kernel (k.nameiparent path)
      branch parent end_fail λ (dp, name). do
        kernel (k.ilock dp)
        if is_dots name then put_fail dp else (do
          entry ← kernel (k.dirlookup dp name)
          branch entry (put_fail dp) λ (ip, off). unlink_entry dp ip off)
