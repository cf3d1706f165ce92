-- ===== src/Content/Small.antt =====
-- Small files: their content stands in the inode, and is kept on the disk with it.
use operating_systems_cs.Base.{
  ℕ, ◌+◌, ◌-◌, ◌^◌, ◌≤◌, ◌<◌, ◌≡◌, refl, ◌∙◌, ◌⊎◌, Bool, true, false, ◌&&◌, ◌||◌, arith, ltb, ◌==◌,
  if◌then◌else◌,
}
use operating_systems_cs.Content.{
  Memory, min, add32, small_bytes, count, left, read_count, readi, write_count, writei,
}
use operating_systems_cs.Fs.{Disk, Superblock}
use operating_systems_cs.Inode.Layout.{paste-in, paste-out, Fits, Agree, read_inode-iupdate}
use operating_systems_cs.Inode.{Inode, t_dev, t_sfile, paste, iupdate, read_inode}

-- A small file whose content fits into `addrs`.
pub record IsSmall (ip : Inode) : Type 0 where
  pub type : ip.type ≡ t_sfile
  pub fits : ip.size ≤ small_bytes

-- The bytes that a write of `n` bytes at `off` stores.
abbrev pub stored : (off n : ℕ) → ℕ
stored off n = min n (small_bytes - off)

write_count-small :
    (ip : Inode) (off n : ℕ)
    → ip.type ≡ t_sfile
    → off ≤ small_bytes
    → off + n < 2 ^ 32
    → write_count ip off n ≡ stored off n
write_count-small ip off n t h l = rw t (ground arith)

module _ (sb : Superblock) (has_driver : ℕ → Bool) where
  -- The inode after a write to a small file.
  abbrev pub written : Inode → (src off n : ℕ) → Memory → Inode
  written ip src off n mem = record ip {
    size = if ltb ip.size (off + stored off n) then off + stored off n else ip.size;
    addrs = paste off (stored off n) (λ i. mem (src + i)) ip.addrs;
  }

  writei-small :
      (ip : Inode) (src off n : ℕ) (d : Disk) (mem : Memory)
      → IsSmall ip
      → off ≤ ip.size
      → off + n < 2 ^ 32
      → writei sb has_driver ip src off n d mem ≡ (
        count (stored off n),
        left (written ip src off n mem) (iupdate sb (written ip src off n mem) d) mem,
      )
  unfolding writei
  writei-small ip src off n d mem v h l =
      let device : (ip.type == t_dev) ≡ false = ground (arith, v.type) in
      let small : (ip.type == t_sfile) ≡ true = ground (arith, v.type) in
      let in_file : (ltb ip.size off || ltb (add32 off n) off) ≡ false = ground arith in
      let end : add32 off (stored off n) ≡ off + stored off n = ground (arith, v.fits) in
      let count_of : write_count ip off n ≡ stored off n =
        write_count-small ip off n v.type (omega (arith, v.fits)) l in
      let grows : (ltb 0 (stored off n) && ltb ip.size (off + stored off n))
          ≡ ltb ip.size (off + stored off n) =
        ground arith in
      rw (writei, device, in_file, count_of, end, small, grows) refl

  readi-small :
      (ip : Inode) (dst off k : ℕ) (d : Disk) (mem : Memory)
      → IsSmall ip
      → off + k ≤ ip.size
      → readi sb has_driver ip dst off k d mem
        ≡ (count k, left ip d (paste dst k (λ i. ip.addrs (off + i)) mem))
  unfolding readi
  readi-small ip dst off k d mem v h =
      let device : (ip.type == t_dev) ≡ false = ground (arith, v.type) in
      let small : (ip.type == t_sfile) ≡ true = ground (arith, v.type) in
      let in_file : (ltb ip.size off || ltb (add32 off k) off) ≡ false = ground (arith, v.fits) in
      let all : read_count ip off k ≡ k = ground (arith, v.fits) in
      rw (readi, device, in_file, small, all) refl

  -- On a small file whose content fits into addrs, writei at an offset within it, with no wrap,
  -- stores and returns the bytes that fit below 52, leaves the other bytes as they were, keeps the
  -- size within 52 and lets it shrink never and cover what was stored, and writes the inode to the
  -- disk.
  pub writei-IsSmall :
      (ip : Inode) (src off n : ℕ) (d : Disk) (mem : Memory)
      → IsSmall ip
      → off ≤ ip.size
      → off + n < 2 ^ 32
      → let (r, l) = writei sb has_driver ip src off n d mem in
        (r ≡ count (stored off n))
        × IsSmall l.ip
        × (ip.size ≤ l.ip.size)
        × (off + stored off n ≤ l.ip.size)
        × ((i : ℕ) → i < stored off n → l.ip.addrs (off + i) ≡ mem (src + i))
        × ((i : ℕ) → (i < off) ⊎ (off + stored off n ≤ i) → l.ip.addrs i ≡ ip.addrs i)
        × (l.disk ≡ iupdate sb l.ip d)
  writei-IsSmall ip src off n d mem v h b = rw (writei-small ip src off n d mem v h b) (
    refl,
    record { type = v.type; fits = ground (arith, v.fits) },
    ground arith,
    ground arith,
    λ i lt. paste-in off (stored off n) (λ i. mem (src + i)) ip.addrs i lt,
    λ i out. paste-out off (stored off n) (λ i. mem (src + i)) ip.addrs i out,
    refl,
  )

  -- Bytes that writei stores in a small file, as many as fit, are what readi returns from the same
  -- offset after the inode has been read again from the disk, with the count that writei returned;
  -- for a file whose content fits into addrs, and an offset and a count with no wrap.
  pub readi-writei_small :
      (ip jp : Inode) (src dst off n : ℕ) (d : Disk) (mem mem' : Memory)
      → IsSmall ip
      → Fits ip
      → off ≤ ip.size
      → off + n < 2 ^ 32
      → jp.inum ≡ ip.inum
      → let (r, l) = writei sb has_driver ip src off n d mem in
        let jp' = read_inode sb jp l.disk in
        let (r', l') = readi sb has_driver jp' dst off (stored off n) l.disk mem' in
        (r' ≡ r) × ((i : ℕ) → i < stored off n → l'.mem (dst + i) ≡ mem (src + i))
  readi-writei_small ip jp src dst off n d mem mem' v f h b same =
      let new : Inode = written ip src off n mem in
      let fits : Fits new = record {
        type = f.type;
        major = f.major;
        minor = f.minor;
        nlink = f.nlink;
        size = ground (arith, v.fits);
      } in
      let kept : Agree (read_inode sb jp (iupdate sb new d)) new =
        read_inode-iupdate sb new jp d fits same in
      let back : Inode = read_inode sb jp (iupdate sb new d) in
      let small : IsSmall back = record {
        type = kept.type ∙ v.type;
        fits = ground (arith, v.fits, kept.size);
      } in
      let room : off + stored off n ≤ back.size = ground (arith, kept.size) in
      rw (writei-small ip src off n d mem v h b) (
        rw (readi-small back dst off (stored off n) (iupdate sb new d) mem' small room) (
          refl,
          λ i lt.
              paste-in dst (stored off n) (λ i. back.addrs (off + i)) mem' i lt
              ∙ kept.addrs (off + i) (ground arith)
              ∙ paste-in off (stored off n) (λ i. mem (src + i)) ip.addrs i lt,
        ))
