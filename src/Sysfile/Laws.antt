-- ===== src/Sysfile/Laws.antt =====
-- What the calls into the rest of the kernel do to what a call of sysfile.c holds.
use operating_systems_cs.Base.{ℕ, suc, ◌≡◌, List}
use operating_systems_cs.FileTable.{File}
use operating_systems_cs.Inode.{Inode}
use operating_systems_cs.Sysfile.{Services}
use operating_systems_cs.Sysfile.Ledger.{Counts, plus, Ledger, holds, Spends, with_ref}

-- What sysfile.c relies on: what each call into the kernel takes and gives back, and
-- that it is made within a transaction, and with a reference to the inode or its lock, where it
-- needs them.
pub record Laws {S : Type 0} (k : Services S) (view : S → Ledger) : Type 0 where
  pub store_word_law : (a w : ℕ) (t : S) → view (k.store_word a w t) ≡ view t
  pub set_inode_law : (ip : ℕ) (i : Inode) (t : S) → view (k.set_inode ip i t) ≡ view t
  pub set_file_law : (f : ℕ) (file : File) (t : S) → view (k.set_file f file t) ≡ view t
  pub begin_op_law :
      (d : ℕ) (r l : Counts) → Spends view (holds d r l) k.begin_op (λ _. holds (suc d) r l)
  pub end_op_law :
      (d : ℕ) (r l : Counts) → Spends view (holds (suc d) r l) k.end_op (λ _. holds d r l)
  pub namei_law :
      (d : ℕ) (r l : Counts) (p : ℕ)
      → Spends view (holds (suc d) r l) (k.namei p) (with_ref (λ ip. ip) (suc d) r l)
  pub nameiparent_law :
      (d : ℕ) (r l : Counts) (p : ℕ)
      → Spends view (holds (suc d) r l) (k.nameiparent p) (with_ref (λ e. e.0) (suc d) r l)
  pub ilock_law :
      (d : ℕ) (r l : Counts) (ip : ℕ)
      → Spends view (holds d (plus ip r) l) (k.ilock ip) (λ _. holds d (plus ip r) (plus ip l))
  pub iunlock_law :
      (d : ℕ) (r l : Counts) (ip : ℕ)
      → Spends view (holds d (plus ip r) (plus ip l)) (k.iunlock ip) (λ _. holds d (plus ip r) l)
  pub iput_law :
      (d : ℕ) (r l : Counts) (ip : ℕ)
      → Spends view (holds (suc d) (plus ip r) l) (k.iput ip) (λ _. holds (suc d) r l)
  pub iunlockput_law :
      (d : ℕ) (r l : Counts) (ip : ℕ)
      → Spends view
          (holds (suc d) (plus ip r) (plus ip l))
          (k.iunlockput ip)
          (λ _. holds (suc d) r l)
  pub iupdate_law :
      (d : ℕ) (r l : Counts) (ip : ℕ)
      → Spends view (holds (suc d) r (plus ip l)) (k.iupdate ip) (λ _. holds (suc d) r (plus ip l))
  pub ialloc_law :
      (d : ℕ) (r l : Counts) (dev type : ℕ)
      → Spends view (holds (suc d) r l) (k.ialloc dev type) (with_ref (λ ip. ip) (suc d) r l)
  pub dirlookup_law :
      (d : ℕ) (r l : Counts) (dp : ℕ) (name : List ℕ)
      → Spends view
          (holds d r (plus dp l))
          (k.dirlookup dp name)
          (with_ref (λ e. e.0) d r (plus dp l))
  pub dirlink_law :
      (d : ℕ) (r l : Counts) (dp : ℕ) (name : List ℕ) (inum : ℕ)
      → Spends view
          (holds (suc d) r (plus dp l))
          (k.dirlink dp name inum)
          (λ _. holds (suc d) r (plus dp l))
  pub readi_law :
      (d : ℕ) (r l : Counts) (ip off n : ℕ)
      → Spends view (holds d r (plus ip l)) (k.readi ip off n) (λ _. holds d r (plus ip l))
  pub writei_law :
      (d : ℕ) (r l : Counts) (ip : ℕ) (src : List ℕ) (off : ℕ)
      → Spends view
          (holds (suc d) r (plus ip l))
          (k.writei ip src off)
          (λ _. holds (suc d) r (plus ip l))
  pub filealloc_law : (l : Ledger) → Spends view l k.filealloc (λ _. l)
  pub fileclose_law : (l : Ledger) (f : ℕ) → Spends view l (k.fileclose f) (λ _. l)
