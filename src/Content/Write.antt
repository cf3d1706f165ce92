-- ===== src/Content/Write.antt =====
-- `writei` over the blocks of a file that are there already.
use operating_systems_cs.Base.{
  ℕ, zero, suc, ◌+◌, ◌-◌, ◌*◌, ◌/◌, ◌%◌, ◌≤◌, ◌<◌, ◌≡◌, ◌≢◌, refl, sym, ap, ◌∙◌, inl, inr, Bool,
  true, false, ◌&&◌, ◌||◌, arith, ltb, leb, ltb→lt, ltb→le, lt→ltb, ◌==◌, ==_refl, ==_ne, ==_sound,
  Bool-cases, not_both, if◌then◌else◌,
}
use operating_systems_cs.Content.Blocks.{
  byte_at, IsLaid, chunk_bounds, in_chunk, chunk_index, other_chunk, same_number,
}
use operating_systems_cs.Content.{
  Memory, min, add32, sub32, max_bytes, count, left, write_loop, finish_loop, writei,
}
use operating_systems_cs.Fs.{Disk, Superblock, bsize, bread, bwrite}
use operating_systems_cs.Inode.Map.{block_of, IsMapped, bmap-IsMapped}
use operating_systems_cs.Inode.{Inode, addr_of, t_dev, t_sfile, paste}

module _ (sb : Superblock) (top : ℕ) where
  -- The disk after one round of `writei`.
  abbrev after_round : Inode → (src off m : ℕ) → Memory → Disk → Disk
  after_round ip src off m mem d =
      let b = block_of ip d (off / bsize) in
      bwrite b (paste (off % bsize) m (λ i. mem (src + i)) (bread b d)) d

  write_round :
      (fuel : ℕ) (ip : Inode) (src off n tot : ℕ) (d : Disk) (mem : Memory)
      → tot < n
      → IsMapped ip d (off / bsize)
      → write_loop sb (suc fuel) ip src off n tot d mem ≡ (
          let m = min (n - tot) (bsize - off % bsize) in
          write_loop sb fuel ip
            (src + m)
            (off + m)
            n
            (tot + m)
            (after_round ip src off m mem d)
            mem)
  unfolding write_loop
  write_round fuel ip src off n tot d mem lt mapped =
      let more : ltb tot n ≡ true = lt→ltb tot n lt in
      let there : (block_of ip d (off / bsize) == 0) ≡ false = ==_ne _ 0 mapped.nonzero in
      rw (write_loop, more, bmap-IsMapped sb ip (off / bsize) d mapped, there) refl

  module _ (ip : Inode) (src off m : ℕ) (mem : Memory) (d : Disk) (laid : IsLaid top ip d)
      (here : off / bsize < top) where
    block_of-round :
        (bn : ℕ) → bn < top → block_of ip (after_round ip src off m mem d) bn ≡ block_of ip d bn
    block_of-round bn lt = elim (Bool-cases (ltb bn 12)) [
      | inl direct ↦ rw direct refl
      | inr beyond ↦
          let ne : addr_of ip 12 ≢ block_of ip d (off / bsize) =
            λ e. laid.apart (off / bsize) bn here lt (ltb→le bn 12 beyond) (sym e) in
          rw (beyond, ==_ne (addr_of ip 12) (block_of ip d (off / bsize)) ne) refl
    ]

    IsLaid-round : IsLaid top ip (after_round ip src off m mem d)
    IsLaid-round = record {
      mapped = λ bn lt. record {
        nonzero = rw (block_of-round bn lt) (laid.mapped bn lt).nonzero;
        indirect = (laid.mapped bn lt).indirect;
        within = (laid.mapped bn lt).within;
      };
      distinct = λ bn bm l k e.
          laid.distinct bn bm l k (sym (block_of-round bn l) ∙ e ∙ block_of-round bm k);
      apart = λ bn bm l k g. rw (block_of-round bn l) (laid.apart bn bm l k g);
    }

    byte_at-round :
        (pos : ℕ)
        → pos / bsize < top
        → off % bsize + m ≤ bsize
        → byte_at ip (after_round ip src off m mem d) pos
          ≡ (if leb off pos && ltb pos (off + m) then mem (src + (pos - off)) else byte_at ip d pos)
    byte_at-round pos lt fits =
        rw (block_of-round (pos / bsize) lt) (elim (Bool-cases (pos / bsize == off / bsize)) [
          | inl same ↦
              let e : pos / bsize ≡ off / bsize = ==_sound (pos / bsize) (off / bsize) same in
              let b : block_of ip d (pos / bsize) ≡ block_of ip d (off / bsize) =
                ap (block_of ip d) e in
              rw (b, ==_refl (block_of ip d (off / bsize)))
                (rw (in_chunk off pos m e, chunk_index off pos e)
                  (ap
                    (λ c.
                      if leb off pos && ltb pos (off + m)
                      then mem (src + (pos - off))
                      else d.blocks c (pos % bsize))
                    (sym b)))
          | inr other ↦
              let ne : block_of ip d (pos / bsize) ≢ block_of ip d (off / bsize) = λ e.
                not_both
                  (same_number (pos / bsize) (off / bsize)
                    (laid.distinct (pos / bsize) (off / bsize) lt here e))
                  other in
              rw
                (
                  ==_ne (block_of ip d (pos / bsize)) (block_of ip d (off / bsize)) ne,
                  other_chunk off pos m other fits,
                )
                refl
        ])

  -- The bytes of the file after `k` bytes from `src` are written at `off`.
  abbrev pub overwritten : Inode → Disk → (src off k : ℕ) → Memory → ℕ → ℕ
  overwritten ip d src off k mem pos =
      if leb off pos && ltb pos (off + k) then mem (src + (pos - off)) else byte_at ip d pos

  -- A write of `m` bytes and then of the others is one write.
  two_writes :
      (src off m k pos old new : ℕ) (mem : Memory)
      → m ≤ k
      → new ≡ (if leb off pos && ltb pos (off + m) then mem (src + (pos - off)) else old)
      → (if leb (off + m) pos && ltb pos (off + m + (k - m))
          then mem (src + m + (pos - (off + m)))
          else new)
        ≡ (if leb off pos && ltb pos (off + k) then mem (src + (pos - off)) else old)
  two_writes src off m k pos old new mem le e = elim (Bool-cases (leb (off + m) pos)) [
    | inl later ↦
        let index : src + m + (pos - (off + m)) ≡ src + (pos - off) = ground arith in
        rw index (ground arith)
    | inr sooner ↦ ground arith
  ]

  pub write_loop_lem :
      (fuel : ℕ) (ip : Inode) (src off n tot : ℕ) (d : Disk) (mem : Memory)
      → IsLaid top ip d
      → tot ≤ n
      → n - tot < fuel
      → off + (n - tot) ≤ top * bsize
      → (d' : Disk) × (write_loop sb fuel ip src off n tot d mem
          ≡ (count n, off + (n - tot), left ip d' mem))
        × IsLaid top ip d'
        × ((pos : ℕ)
            → pos < top * bsize
            → byte_at ip d' pos ≡ overwritten ip d src off (n - tot) mem pos)
  unfolding write_loop
  write_loop_lem zero ip src off n tot d mem laid le f room = absurd (omega arith)
  write_loop_lem (suc fuel) ip src off n tot d mem laid le f room = elim (Bool-cases (ltb tot n)) [
    | inr done ↦
        let over : n ≤ tot = ltb→le tot n done in
        let end : off ≡ off + (n - tot) = omega arith in
        (
          d,
          rw (write_loop, done) (ap (λ k. (count n, k, left ip d mem)) end),
          laid,
          λ pos lt. ground arith,
        )
    | inl more ↦
        let lt : tot < n = ltb→lt tot n more in
        let m : ℕ = min (n - tot) (bsize - off % bsize) in
        let (pos_m, le_m, in_b) = chunk_bounds off (n - tot) (omega arith) in
        let here : off / bsize < top = omega arith in
        let d1 : Disk = after_round ip src off m mem d in
        let (d', e, laid', bytes) =
          write_loop_lem fuel ip (src + m) (off + m) n (tot + m) d1 mem
            (IsLaid-round ip src off m mem d laid here) (omega arith) (omega arith) (omega arith) in
        let end : off + m + (n - (tot + m)) ≡ off + (n - tot) = omega arith in
        (
          d',
          write_round fuel ip src off n tot d mem lt (laid.mapped (off / bsize) here)
              ∙ e
              ∙ ap (λ k. (count n, k, left ip d' mem)) end,
          laid',
          λ pos l.
              let left_over : n - (tot + m) ≡ n - tot - m = omega arith in
              bytes pos l
              ∙ rw left_over (
                  two_writes src off m (n - tot) pos (byte_at ip d pos) (byte_at ip d1 pos) mem le_m
                    (byte_at-round ip src off m mem d laid here pos (omega arith) in_b)),
        )
  ]

  -- The whole loop.
  write_all :
      (ip : Inode) (src off n : ℕ) (d : Disk) (mem : Memory)
      → IsLaid top ip d
      → off + n ≤ top * bsize
      → (d' : Disk) × (write_loop sb (n + 1) ip src off n 0 d mem
          ≡ (count n, off + n, left ip d' mem))
        × IsLaid top ip d'
        × ((pos : ℕ) → pos < top * bsize → byte_at ip d' pos ≡ overwritten ip d src off n mem pos)
  write_all ip src off n d mem laid room =
      let all : n - 0 ≡ n = omega arith in
      rw all at
        (write_loop_lem (n + 1) ip src off n 0 d mem laid (omega arith) (omega arith) (omega arith))

  module _ (has_driver : ℕ → Bool) where
    writei-write_loop :
        (ip : Inode) (src off n : ℕ) (d d' : Disk) (mem : Memory)
        → ip.type ≢ t_dev
        → ip.type ≢ t_sfile
        → off + n ≤ ip.size
        → ip.size ≤ max_bytes
        → write_loop sb (n + 1) ip src off n 0 d mem ≡ (count n, off + n, left ip d' mem)
        → writei sb has_driver ip src off n d mem ≡ (count n, left ip d' mem)
    unfolding writei
    writei-write_loop ip src off n d d' mem nd ns h mx e =
        let device : (ip.type == t_dev) ≡ false = ==_ne ip.type t_dev nd in
        let small : (ip.type == t_sfile) ≡ false = ==_ne ip.type t_sfile ns in
        let in_file : (ltb ip.size off || ltb (add32 off n) off) ≡ false = ground arith in
        let grows : (ltb 0 n && ltb ip.size (off + n)) ≡ false = ground arith in
        let k : ℕ = if ltb max_bytes (add32 off n) then sub32 max_bytes off else n in
        let all : k ≡ n = ground arith in
        let loop : write_loop sb (k + 1) ip src off k 0 d mem ≡ (count n, off + n, left ip d' mem) =
          rw all e in
        let ends : finish_loop sb (count n, off + n, left ip d' mem) ≡ (count n, left ip d' mem) =
          rw (small, grows) refl in
        rw (writei, device, in_file, small) (ap (finish_loop sb) loop ∙ ends)

    -- On a file of blocks that are all there and distinct, no larger than MAXFILE blocks, writei of
    -- bytes within its size returns n, changes neither the inode nor the memory, and leaves every
    -- byte of the file as it was but for the n bytes at the offset, which are those of the memory;
    -- its blocks are still there and distinct.
    pub writei_blocks :
        (ip : Inode) (src off n : ℕ) (d : Disk) (mem : Memory)
        → ip.type ≢ t_dev
        → ip.type ≢ t_sfile
        → IsLaid top ip d
        → off + n ≤ ip.size
        → ip.size ≤ top * bsize
        → ip.size ≤ max_bytes
        → (d' : Disk) × (writei sb has_driver ip src off n d mem ≡ (count n, left ip d' mem))
          × IsLaid top ip d'
          × ((pos : ℕ) → pos < top * bsize → byte_at ip d' pos ≡ overwritten ip d src off n mem pos)
    writei_blocks ip src off n d mem nd ns laid h sz mx =
        let (d', e, laid', bytes) = write_all ip src off n d mem laid (omega arith) in
        (d', writei-write_loop ip src off n d d' mem nd ns h mx e, laid', bytes)
