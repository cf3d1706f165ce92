-- ===== src/Content/Read.antt =====
-- `readi` of a file of blocks.
use operating_systems_cs.Base.{
  ℕ, zero, suc, ◌+◌, ◌-◌, ◌*◌, ◌/◌, ◌%◌, ◌^◌, ◌≤◌, ◌<◌, ◌≡◌, ◌≢◌, refl, sym, ◌∙◌, ◌⊎◌, inl, inr,
  Bool, true, false, ◌||◌, arith, ltb, ltb→lt, ltb→le, lt→ltb, ◌==◌, ==_ne, Bool-cases,
}
use operating_systems_cs.Content.Blocks.{byte_at, IsLaid, chunk_bounds, byte_at-block}
use operating_systems_cs.Content.{Memory, min, add32, count, left, read_loop, read_count, readi}
use operating_systems_cs.Fs.{Disk, Superblock, bsize}
use operating_systems_cs.Inode.Layout.{paste-in, paste-out}
use operating_systems_cs.Inode.Map.{block_of, IsMapped, bmap-IsMapped}
use operating_systems_cs.Inode.{Inode, t_dev, t_sfile, paste}

module _ (sb : Superblock) (top : ℕ) where
  -- One round reads from one block.
  read_round :
      (fuel : ℕ) (ip : Inode) (dst off n tot : ℕ) (d : Disk) (mem : Memory)
      → tot < n
      → IsMapped ip d (off / bsize)
      → read_loop sb (suc fuel) ip dst off n tot d mem ≡ (
          let m = min (n - tot) (bsize - off % bsize) in
          read_loop sb fuel ip
            (dst + m)
            (off + m)
            n
            (tot + m)
            d
            (paste dst m (λ i. d.blocks (block_of ip d (off / bsize)) (off % bsize + i)) mem))
  unfolding read_loop
  read_round fuel ip dst off n tot d mem lt mapped =
      let more : ltb tot n ≡ true = lt→ltb tot n lt in
      let there : (block_of ip d (off / bsize) == 0) ≡ false = ==_ne _ 0 mapped.nonzero in
      rw (read_loop, more, bmap-IsMapped sb ip (off / bsize) d mapped, there) refl

  pub read_loop_lem :
      (fuel : ℕ) (ip : Inode) (dst off n tot : ℕ) (d : Disk) (mem : Memory)
      → IsLaid top ip d
      → tot ≤ n
      → n - tot < fuel
      → off + (n - tot) ≤ top * bsize
      → (mem' : Memory) × (read_loop sb fuel ip dst off n tot d mem ≡ (count n, left ip d mem'))
        × ((i : ℕ) → i < n - tot → mem' (dst + i) ≡ byte_at ip d (off + i))
        × ((a : ℕ) → (a < dst) ⊎ (dst + (n - tot) ≤ a) → mem' a ≡ mem a)
  unfolding read_loop
  read_loop_lem zero ip dst off n tot d mem laid le f room = absurd (omega arith)
  read_loop_lem (suc fuel) ip dst off n tot d mem laid le f room = elim (Bool-cases (ltb tot n)) [
    | inr done ↦
        let over : n ≤ tot = ltb→le tot n done in
        (mem, rw (read_loop, done) refl, λ i lt. absurd (omega arith), λ a out. refl)
    | inl more ↦
        let lt : tot < n = ltb→lt tot n more in
        let m : ℕ = min (n - tot) (bsize - off % bsize) in
        let (pos_m, le_m, in_b) = chunk_bounds off (n - tot) (omega arith) in
        let src = λ (i : ℕ). d.blocks (block_of ip d (off / bsize)) (off % bsize + i) in
        let mem1 : Memory = paste dst m src mem in
        let (mem', e, inside, outside) =
          read_loop_lem fuel ip (dst + m) (off + m) n (tot + m) d mem1 laid (omega arith)
            (omega arith) (omega arith) in
        (
          mem',
          read_round fuel ip dst off n tot d mem lt (laid.mapped (off / bsize) (omega arith)) ∙ e,
          λ i l. elim (Bool-cases (ltb i m)) [
            | inl near ↦
                let i_m : i < m = ltb→lt i m near in
                outside (dst + i) (inl (omega arith))
                ∙ paste-in dst m src mem i i_m
                ∙ sym (byte_at-block ip d off i (omega arith))
            | inr far ↦
                let m_i : m ≤ i = ltb→le i m far in
                let there : dst + i ≡ dst + m + (i - m) = omega arith in
                let from : off + i ≡ off + m + (i - m) = omega arith in
                rw (there, from) (inside (i - m) (omega arith))
          ],
          λ a out. elim out [
            | inl below ↦ outside a (inl (omega arith)) ∙ paste-out dst m src mem a (inl below)
            | inr above ↦
                outside a (inr (omega arith)) ∙ paste-out dst m src mem a (inr (omega arith))
          ],
        )
  ]

  -- The whole loop.
  read_all :
      (ip : Inode) (dst off n : ℕ) (d : Disk) (mem : Memory)
      → IsLaid top ip d
      → off + n ≤ top * bsize
      → (mem' : Memory) × (read_loop sb (n + 1) ip dst off n 0 d mem ≡ (count n, left ip d mem'))
        × ((i : ℕ) → i < n → mem' (dst + i) ≡ byte_at ip d (off + i))
        × ((a : ℕ) → (a < dst) ⊎ (dst + n ≤ a) → mem' a ≡ mem a)
  read_all ip dst off n d mem laid room =
      let all : n - 0 ≡ n = omega arith in
      rw all at
        (read_loop_lem (n + 1) ip dst off n 0 d mem laid (omega arith) (omega arith) (omega arith))

  module _ (has_driver : ℕ → Bool) where
    -- The bytes that a read at `off` returns.
    abbrev pub available : Inode → (off n : ℕ) → ℕ
    available ip off n = min n (ip.size - off)

    read_count-available :
        (ip : Inode) (off n : ℕ)
        → off ≤ ip.size
        → off + n < 2 ^ 32
        → ip.size < 2 ^ 32
        → read_count ip off n ≡ available ip off n
    read_count-available ip off n h b sz = ground arith

    readi-read_loop :
        (ip : Inode) (dst off n : ℕ) (d : Disk) (mem : Memory)
        → ip.type ≢ t_dev
        → ip.type ≢ t_sfile
        → off ≤ ip.size
        → off + n < 2 ^ 32
        → ip.size < 2 ^ 32
        → readi sb has_driver ip dst off n d mem
          ≡ read_loop sb (available ip off n + 1) ip dst off (available ip off n) 0 d mem
    unfolding readi
    readi-read_loop ip dst off n d mem nd ns h b sz =
        let device : (ip.type == t_dev) ≡ false = ==_ne ip.type t_dev nd in
        let small : (ip.type == t_sfile) ≡ false = ==_ne ip.type t_sfile ns in
        let in_file : (ltb ip.size off || ltb (add32 off n) off) ≡ false = ground arith in
        rw (readi, device, in_file, small, read_count-available ip off n h b sz) refl

    -- On a file of blocks that are all there, readi at an offset within it, with no wrap, returns
    -- the bytes up to the size, n at most, however they span blocks: they are in the memory in
    -- order, the rest of the memory, the inode and the disk are as they were.
    pub readi_blocks :
        (ip : Inode) (dst off n : ℕ) (d : Disk) (mem : Memory)
        → ip.type ≢ t_dev
        → ip.type ≢ t_sfile
        → IsLaid top ip d
        → off ≤ ip.size
        → ip.size ≤ top * bsize
        → ip.size < 2 ^ 32
        → off + n < 2 ^ 32
        → (mem' : Memory) × (readi sb has_driver ip dst off n d mem
            ≡ (count (available ip off n), left ip d mem'))
          × ((i : ℕ) → i < available ip off n → mem' (dst + i) ≡ byte_at ip d (off + i))
          × ((a : ℕ) → (a < dst) ⊎ (dst + available ip off n ≤ a) → mem' a ≡ mem a)
    readi_blocks ip dst off n d mem nd ns laid h top_b sz b =
        let (mem', e, inside, outside) =
          read_all ip dst off (available ip off n) d mem laid (ground arith) in
        (mem', readi-read_loop ip dst off n d mem nd ns h b sz ∙ e, inside, outside)
