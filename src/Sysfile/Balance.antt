-- ===== src/Sysfile/Balance.antt =====
-- The calls of sysfile.c on path names give back what they take.
use operating_systems_cs.Base.{ℕ, zero, suc, ◌+◌, refl, true, false, Option, none, some, List, ◌==◌}
use operating_systems_cs.Inode.{Inode, t_dir}
use operating_systems_cs.Sysfile.{Services}
use operating_systems_cs.Sysfile.Laws.{Laws}
use operating_systems_cs.Sysfile.Ledger.{
  Counts, plus, Ledger, Held, at, holds, Takes, Leaves, swap_refs, swap_locks, use_call, bind,
  Takes-pure, Takes-panic, Takes-gets, Takes-modify, Takes-if, bind-branch, bind-try,
}
use operating_systems_cs.Sysfile.Links.{
  change_inode, end_fail, put_fail, scan_entries, isdirempty, drop_link, raise_link, undo_link,
  link_entry, link_name, link_paths, sys_link, entries_left, length_16, is_used, drop_parent,
  remove_entry, unlink_entry, has_no_link, is_dots, sys_unlink,
}

module _ {S : Type 0} (k : Services S) (view : S → Ledger) (laws : Laws k view) where
  pub change_lem :
      {l : Held} (ip : ℕ) (f : Inode → Inode) → Takes view l (change_inode k ip f) (Leaves (λ _. l))
  change_lem ip f =
      Takes-modify view (λ s. k.set_inode ip (f (k.inode ip s)) s)
        (λ t. laws.set_inode_law ip (f (k.inode ip t)) t)

  pub end_fail_lem :
      {w d : ℕ} {r l : Counts} {P : Option ℕ → Held → Type 0}
      → P none (at w (holds d r l))
      → Takes view (at w (holds (suc d) r l)) (end_fail k) P
  end_fail_lem p = bind view (use_call view (laws.end_op_law _ _ _)) λ _. Takes-pure view none p

  pub put_fail_lem :
      {w d : ℕ} (r l : Counts) {P : Option ℕ → Held → Type 0} (ip : ℕ)
      → P none (at w (holds d r l))
      → Takes view (at w (holds (suc d) (plus ip r) (plus ip l))) (put_fail k ip) P
  put_fail_lem r l ip p =
      bind view (use_call view (laws.iunlockput_law _ _ _ ip)) λ _. end_fail_lem p

  scan_entries_lem :
      {w d : ℕ} {r : Counts} (l : Counts) (dp left off : ℕ)
      → Takes view
          (at w (holds d r (plus dp l)))
          (scan_entries k dp left off)
          (Leaves (λ _. at w (holds d r (plus dp l))))
  unfolding scan_entries
  scan_entries_lem l dp zero off = Takes-pure view true refl
  scan_entries_lem l dp (suc left) off =
      bind-branch view (use_call view (laws.readi_law _ _ _ dp off 16)) (Takes-panic view) λ bs.
        Takes-if view (length_16 bs)
          (Takes-if view (is_used bs) (Takes-pure view false refl)
            (scan_entries_lem l dp left (off + 16)))
          (Takes-panic view)

  undo_link_lem :
      {w d : ℕ} {r l : Counts} (ip : ℕ)
      → Takes view
          (at w (holds (suc d) (plus ip r) l))
          (undo_link k ip)
          (Leaves (λ _. at w (holds d r l)))
  unfolding undo_link
  undo_link_lem ip = bind view (use_call view (laws.ilock_law _ _ _ ip)) λ _.
      bind view (change_lem ip drop_link)
        λ _. bind view (use_call view (laws.iupdate_law _ _ _ ip)) λ _. put_fail_lem _ _ ip refl

  link_entry_lem :
      {w d : ℕ} {r : Counts} (l : Counts) (dp ip : ℕ) (name : List ℕ)
      → Takes view
          (at w (holds (suc d) r (plus dp l)))
          (link_entry k dp ip name)
          (Leaves (λ _. at w (holds (suc d) r (plus dp l))))
  link_entry_lem l dp ip name = bind view (Takes-gets view _) λ from.
      bind view (Takes-gets view _) λ to.
        Takes-if view (from.dev == to.dev) (use_call view (laws.dirlink_law _ _ _ dp name to.inum))
          (Takes-pure view none refl)

  link_name_lem :
      {w d : ℕ} {r l : Counts} (ip new : ℕ)
      → Takes view
          (at w (holds (suc d) (plus ip r) l))
          (link_name k ip new)
          (Leaves (λ _. at w (holds d r l)))
  unfolding link_name
  link_name_lem ip new =
      bind-branch view (use_call view (laws.nameiparent_law _ _ _ new)) (undo_link_lem ip)
        λ (dp, name). bind view (use_call view (laws.ilock_law _ _ _ dp)) λ _.
          bind-branch view (link_entry_lem _ dp ip name)
            (bind view (use_call view (laws.iunlockput_law _ _ _ dp)) λ _. undo_link_lem ip)
            λ _. bind view (use_call view (laws.iunlockput_law _ _ _ dp)) λ _.
              bind view (use_call view (laws.iput_law _ _ _ ip)) λ _.
                bind view (use_call view (laws.end_op_law _ _ _)) λ _. Takes-pure view (some 0) refl

  link_paths_lem :
      {w d : ℕ} {r l : Counts} (old new : ℕ)
      → Takes view
          (at w (holds (suc d) r l))
          (link_paths k old new)
          (Leaves (λ _. at w (holds d r l)))
  unfolding link_paths
  link_paths_lem old new =
      bind-branch view (use_call view (laws.namei_law _ _ _ old)) (end_fail_lem refl) λ ip.
        bind view (use_call view (laws.ilock_law _ _ _ ip)) λ _. bind view (Takes-gets view _) λ i.
          Takes-if view (i.type == t_dir) (put_fail_lem _ _ ip refl) (
            bind view (change_lem ip raise_link) λ _.
              bind view (use_call view (laws.iupdate_law _ _ _ ip)) λ _.
                bind view (use_call view (laws.iunlock_law _ _ _ ip)) λ _. link_name_lem ip new)

  -- `sys_link` gives back what it takes.
  pub sys_link_lem :
      {w : ℕ} (d : ℕ) (r l : Counts)
      → Takes view (at w (holds d r l)) (sys_link k) (Leaves (λ _. at w (holds d r l)))
  unfolding sys_link
  sys_link_lem d r l = bind-try view (Takes-gets view _) refl λ (old, _).
      bind-try view (Takes-gets view _) refl
        λ (new, _). bind view (use_call view (laws.begin_op_law _ _ _)) λ _. link_paths_lem old new

  drop_parent_lem :
      {w d : ℕ} {r : Counts} (l : Counts) (type dp : ℕ)
      → Takes view
          (at w (holds (suc d) r (plus dp l)))
          (drop_parent k type dp)
          (Leaves (λ _. at w (holds (suc d) r (plus dp l))))
  drop_parent_lem l type dp =
      Takes-if view (type == t_dir)
        (bind view (change_lem dp drop_link) λ _. use_call view (laws.iupdate_law _ _ _ dp))
        (Takes-pure view tt refl)

  remove_entry_lem :
      {w d : ℕ} {r l : Counts} (dp ip off : ℕ)
      → Takes view
          (at w (holds (suc d) (plus dp (plus ip r)) (plus dp (plus ip l))))
          (remove_entry k dp ip off)
          (Leaves (λ _. at w (holds d r l)))
  unfolding remove_entry
  remove_entry_lem dp ip off =
      bind-branch view (use_call view (laws.writei_law _ _ _ dp _ off)) (Takes-panic view) λ n.
        Takes-if view (n == 16)
          (bind view (Takes-gets view _) λ i. bind view (drop_parent_lem _ i.type dp) λ _.
            bind view (use_call view (laws.iunlockput_law _ _ _ dp)) λ _.
              bind view (change_lem ip drop_link) λ _.
                bind view (use_call view (laws.iupdate_law _ _ _ ip)) λ _.
                  bind view (use_call view (laws.iunlockput_law _ _ _ ip)) λ _.
                    bind view (use_call view (laws.end_op_law _ _ _))
                      λ _. Takes-pure view (some 0) refl)
          (Takes-panic view)

  isdirempty_lem :
      {w d : ℕ} {r : Counts} (l : Counts) (dp : ℕ)
      → Takes view
          (at w (holds d r (plus dp l)))
          (isdirempty k dp)
          (Leaves (λ _. at w (holds d r (plus dp l))))
  unfolding isdirempty
  isdirempty_lem l dp =
      bind view (Takes-gets view _) λ i. scan_entries_lem l dp (entries_left i.size) 32

  unlink_entry_lem :
      {w d : ℕ} {r l : Counts} (dp ip off : ℕ)
      → Takes view
          (at w (holds (suc d) (plus ip (plus dp r)) (plus dp l)))
          (unlink_entry k dp ip off)
          (Leaves (λ _. at w (holds d r l)))
  unfolding unlink_entry
  unlink_entry_lem dp ip off = bind view (use_call view (laws.ilock_law _ _ _ ip)) λ _.
      bind view (Takes-gets view _) λ i. Takes-if view (has_no_link i) (Takes-panic view) (
        bind view
          (Takes-if view (i.type == t_dir) (isdirempty_lem _ ip) (Takes-pure view true refl))
          λ empty.
            Takes-if view empty
              (swap_refs view ip dp _ (swap_locks view ip dp _ (remove_entry_lem dp ip off)))
              (bind view (use_call view (laws.iunlockput_law _ _ _ ip))
                λ _. put_fail_lem _ _ dp refl))

  -- `sys_unlink` gives back what it takes.
  pub sys_unlink_lem :
      {w : ℕ} (d : ℕ) (r l : Counts)
      → Takes view (at w (holds d r l)) (sys_unlink k) (Leaves (λ _. at w (holds d r l)))
  unfolding sys_unlink
  sys_unlink_lem d r l = bind-try view (Takes-gets view _) refl λ (path, _).
      bind view (use_call view (laws.begin_op_law _ _ _)) λ _.
        bind-branch view (use_call view (laws.nameiparent_law _ _ _ path)) (end_fail_lem refl)
          λ (dp, name). bind view (use_call view (laws.ilock_law _ _ _ dp)) λ _.
            Takes-if view (is_dots name) (put_fail_lem _ _ dp refl) (
              bind-branch view (use_call view (laws.dirlookup_law _ _ _ dp name))
                (put_fail_lem _ _ dp refl) λ (ip, off). unlink_entry_lem dp ip off)
