-- ===== src/Icache/Alloc.antt =====
-- `ialloc` takes the first free inode of the disk.
use operating_systems_cs.Base.{
  ℕ, zero, suc, ◌+◌, ◌-◌, ◌^◌, ◌≤◌, ◌<◌, ◌≡◌, ◌≢◌, sym, ap, ◌∙◌, inl, inr, true, false, Option,
  none, some, List, arith, ◌==◌, ==_sound, Bool-cases, Option-cases,
}
use operating_systems_cs.Fs.{Block, Disk, bread, log_write, Superblock}
use operating_systems_cs.Icache.{iget, blank_dinode, ialloc_from, ialloc}
use operating_systems_cs.Inode.Layout.{Fits, Agree, read_inode-iupdate, read_inode-iupdate_other}
use operating_systems_cs.Inode.{Inode, get16, iblock, dinode_at, store_dinode, iupdate, read_inode}

-- The inode that `ialloc` writes.
abbrev pub blank_inode : (inum type : ℕ) → Inode
blank_inode inum type = record {
  dev = 0;
  inum = inum;
  ref = 0;
  valid = true;
  busy = false;
  locked = false;
  type = type;
  major = 0;
  minor = 0;
  nlink = 0;
  size = 0;
  addrs = λ i. 0;
}

blank_dinode-store :
    (inum p type : ℕ) (v : Block) → blank_dinode p type v ≡ store_dinode (blank_inode inum type) p v
unfolding blank_dinode store_dinode
blank_dinode-store inum p type v j i = each i j
  where
    each : (i : ℕ) → blank_dinode p type v i ≡ store_dinode (blank_inode inum type) p v i
    each i = ground arith

module _ (sb : Superblock) where
  -- The type of an inode on the disk; 0 is a free one.
  abbrev pub type_on_disk : Disk → ℕ → ℕ
  type_on_disk d n = get16 (d.blocks (iblock sb n)) (dinode_at n)

  log_write-iupdate :
      (n type : ℕ) (d : Disk)
      → log_write (iblock sb n) (blank_dinode (dinode_at n) type (bread (iblock sb n) d)) d
        ≡ iupdate sb (blank_inode n type) d
  unfolding iupdate
  log_write-iupdate n type d =
      ap (λ v. log_write (iblock sb n) v d)
        (blank_dinode-store n (dinode_at n) type (bread (iblock sb n) d))

  triple_inj :
      {i j : ℕ} {t u : List Inode} {d e : Disk}
      → ◌≡◌ {A = Option (ℕ × List Inode × Disk)} (some (i, t, d)) (some (j, u, e))
      → (i ≡ j) × (t ≡ u) × (d ≡ e)
  triple_inj h = (cc, cc, cc)

  -- The inode `n` is the first free one from `from` on, and `iget` and the disk are for it.
  abbrev Took : (from below dev type i : ℕ) (t t' : List Inode) (d d' : Disk) (n : ℕ) → Type 0
  Took from below dev type i t t' d d' n =
      (from ≤ n)
      × (n < below)
      × (type_on_disk d n ≡ 0)
      × ((m : ℕ) → from ≤ m → m < n → type_on_disk d m ≢ 0)
      × (iget dev n t ≡ some (i, t'))
      × (d' ≡ iupdate sb (blank_inode n type) d)

  ialloc_from-some :
      (rounds inum dev type i : ℕ) (d d' : Disk) (t t' : List Inode)
      → ialloc_from sb rounds inum dev type d t ≡ some (i, t', d')
      → (n : ℕ) × Took inum (inum + rounds) dev type i t t' d d' n
  unfolding ialloc_from
  ialloc_from-some zero inum dev type i d d' t t' e = cc
  ialloc_from-some (suc rounds) inum dev type i d d' t t' e =
      elim (Bool-cases (type_on_disk d inum == 0)) [
        | inr used ↦
            let (n, (lo, hi, free, before, got, disk)) =
              ialloc_from-some rounds (inum + 1) dev type i d d' t t' (rw used at e) in
            (
              n,
              (
                omega arith,
                omega arith,
                free,
                λ m l h. elim (Bool-cases (m == inum)) [
                  | inl here ↦ rw (==_sound m inum here) (ground arith)
                  | inr later ↦ before m (ground arith) h
                ],
                got,
                disk,
              ),
            )
        | inl free ↦ elim (Option-cases (iget dev inum t)) [
          | inl full ↦ absurd (no_result (rw (free, full) at e))
          | inr ((j, u), got) ↦
              let (same_i, same_t, same_d) = triple_inj (rw (free, got) at e) in
              (
                inum,
                (
                  omega arith,
                  omega arith,
                  ==_sound (type_on_disk d inum) 0 free,
                  λ m l h. absurd (omega arith),
                  rw (← same_i, ← same_t) got,
                  sym same_d ∙ log_write-iupdate inum type d,
                ),
              )
        ]
      ]
    where
      no_result : {a : ℕ × List Inode × Disk} → none ≡ some a → ⊥
      no_result h = cc

  -- If ialloc returns, then it is with what iget returns for the first inode above 0 that is free
  -- on the disk, which lies below the number of inodes; where the type has 16 bits, on the disk
  -- that inode then has the type and is zero otherwise, and every other inode reads as before.
  pub ialloc_lem :
      (dev type i : ℕ) (d d' : Disk) (t t' : List Inode)
      → type < 2 ^ 16
      → ialloc sb dev type d t ≡ some (i, t', d')
      → (n : ℕ) × (0 < n)
        × (n < sb.ninodes)
        × (type_on_disk d n ≡ 0)
        × ((m : ℕ) → 0 < m → m < n → type_on_disk d m ≢ 0)
        × (iget dev n t ≡ some (i, t'))
        × ((jp : Inode) → jp.inum ≡ n → Agree (read_inode sb jp d') (blank_inode n type))
        × ((jp : Inode) → jp.inum ≢ n → Agree (read_inode sb jp d') (read_inode sb jp d))
  unfolding ialloc
  ialloc_lem dev type i d d' t t' small e =
      let (n, (lo, hi, free, before, got, disk)) =
        ialloc_from-some (sb.ninodes - 1) 1 dev type i d d' t t' e in
      let fits : Fits (blank_inode n type) = record {
        type = small;
        major = omega arith;
        minor = omega arith;
        nlink = omega arith;
        size = omega arith;
      } in
      (
        n,
        omega arith,
        omega arith,
        free,
        λ m l h. before m (omega arith) h,
        got,
        λ jp same. rw disk (read_inode-iupdate sb (blank_inode n type) jp d fits same),
        λ jp ne. rw disk (read_inode-iupdate_other sb (blank_inode n type) jp d ne),
      )
