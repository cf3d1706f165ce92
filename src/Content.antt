-- ===== src/Content.antt =====
-- fs.c: `readi` and `writei`, over the memory of the caller. Numbers are 32-bit where they wrap.
mod Tests
pub mod Small
pub mod Blocks
pub mod Read
pub mod Write
use operating_systems_cs.Base.{
  ℕ, zero, suc, ◌+◌, ◌-◌, ◌*◌, ◌/◌, ◌%◌, ◌^◌, Bool, true, false, not, ◌&&◌, ◌||◌, Option, none,
  some, ltb, leb, ◌==◌, if◌then◌else◌,
}
use operating_systems_cs.Fs.{Disk, bread, bwrite, bsize, Superblock}
use operating_systems_cs.Inode.{Inode, t_dev, t_sfile, paste, iupdate, bmap}

abbrev pub Memory : Type 0
Memory = ℕ → ℕ

abbrev pub min : ℕ → ℕ → ℕ
min a b = if ltb a b then a else b

abbrev pub add32 : ℕ → ℕ → ℕ
add32 a b = (a + b) % 2 ^ 32

abbrev pub sub32 : ℕ → ℕ → ℕ
sub32 a b = (a + 2 ^ 32 - b) % 2 ^ 32

-- `MAXFILE * BSIZE`, and the bytes of `addrs`.
abbrev pub max_bytes : ℕ
max_bytes = 71680

abbrev pub small_bytes : ℕ
small_bytes = 52

abbrev pub ndev : ℕ
ndev = 10

-- How `readi` and `writei` end. For a device the call is passed on to the driver of the number.
pub data Transfer : Type 0 where
  count : ℕ → Transfer
  fails : Transfer
  to_driver : ℕ → Transfer
  panics : Transfer
  out_of_fuel : Transfer

-- What a call leaves: the inode, the disk, and the memory of the caller.
pub record Left : Type 0 where
  pub ip : Inode
  pub disk : Disk
  pub mem : Memory

abbrev pub left : Inode → Disk → Memory → Left
left ip d mem = record { ip = ip; disk = d; mem = mem }

-- `n` after the test against the size.
abbrev pub read_count : Inode → (off n : ℕ) → ℕ
read_count ip off n = if ltb ip.size (add32 off n) then sub32 ip.size off else n

-- `n` after the tests against MAXFILE and the room of a small file.
abbrev pub write_count : Inode → (off n : ℕ) → ℕ
write_count ip off n =
    let k = if ltb max_bytes (add32 off n) then sub32 max_bytes off else n in
    if (ip.type == t_sfile) && ltb small_bytes (add32 off k) then sub32 small_bytes off else k

module _ (sb : Superblock) where
  -- The loop of `readi` at `tot`; each round takes a byte at least.
  pub read_loop : (fuel : ℕ) (ip : Inode) (dst off n tot : ℕ) → Disk → Memory → Transfer × Left
  read_loop zero ip dst off n tot d mem = (out_of_fuel, left ip d mem)
  read_loop (suc fuel) ip dst off n tot d mem =
      if not (ltb tot n) then (count n, left ip d mem) else elim (bmap sb ip (off / bsize) d) [
        | none ↦ (panics, left ip d mem)
        | some (sector, ip', d') ↦
            let m = min (n - tot) (bsize - off % bsize) in
            let rest =
              read_loop fuel ip' (dst + m) (off + m) n (tot + m) d'
                (paste dst m (λ i. bread sector d' (off % bsize + i)) mem) in
            if sector == 0 then (panics, left ip' d' mem) else rest
      ]

  -- The loop of `writei`; it also hands back the final `tot`, which is the count when it breaks off.
  pub write_loop : (fuel : ℕ) (ip : Inode) (src off n tot : ℕ) → Disk → Memory → Transfer × ℕ × Left
  write_loop zero ip src off n tot d mem = (out_of_fuel, off, left ip d mem)
  write_loop (suc fuel) ip src off n tot d mem =
      if not (ltb tot n) then (count n, off, left ip d mem) else elim (bmap sb ip (off / bsize) d) [
        | none ↦ (panics, off, left ip d mem)
        | some (sector, ip', d') ↦
            let m = min (n - tot) (bsize - off % bsize) in
            let rest =
              write_loop fuel ip' (src + m) (off + m) n (tot + m)
                (bwrite sector (paste (off % bsize) m (λ i. mem (src + i)) (bread sector d')) d')
                mem in
            if sector == 0 then (count tot, off, left ip' d' mem) else rest
      ]

  -- The end of `writei`, with the new offset.
  abbrev pub finish_write : (n off : ℕ) → Inode → Disk → Memory → Transfer × Left
  finish_write n off ip d mem =
      let grows = ltb 0 n && ltb ip.size off in
      let ip' = record ip { size = if grows then off else ip.size } in
      if (ip.type == t_sfile) || grows
      then (count n, left ip' (iupdate sb ip' d) mem)
      else (count n, left ip d mem)

  -- The end of `writei` after the loop.
  abbrev pub finish_loop : Transfer × ℕ × Left → Transfer × Left
  finish_loop (r, off, l) = elim r [
    | count k ↦ finish_write k off l.ip l.disk l.mem
    | other ↦ (other, l)
  ]

  module _ (has_driver : ℕ → Bool) where
    -- `ip->major` is a 16-bit pattern: a negative one is above NDEV too.
    abbrev pub on_device : Inode → Disk → Memory → Transfer × Left
    on_device ip d mem = (
      (if leb ndev ip.major || not (has_driver ip.major) then fails else to_driver ip.major),
      left ip d mem,
    )

    pub readi : Inode → (dst off n : ℕ) → Disk → Memory → Transfer × Left
    unfolding read_loop
    readi ip dst off n d mem =
        if ip.type == t_dev
        then on_device ip d mem
        else if ltb ip.size off || ltb (add32 off n) off
        then (fails, left ip d mem)
        else if ip.type == t_sfile
        then (let k = read_count ip off n in
            (count k, left ip d (paste dst k (λ i. ip.addrs (off + i)) mem)))
        else read_loop (read_count ip off n + 1) ip dst off (read_count ip off n) 0 d mem

    pub writei : Inode → (src off n : ℕ) → Disk → Memory → Transfer × Left
    unfolding write_loop
    writei ip src off n d mem =
        if ip.type == t_dev
        then on_device ip d mem
        else if ltb ip.size off || ltb (add32 off n) off
        then (fails, left ip d mem)
        else if ip.type == t_sfile
        then (let k = write_count ip off n in
            finish_write k (add32 off k)
              (record ip { addrs = paste off k (λ i. mem (src + i)) ip.addrs }) d mem)
        else finish_loop
            (write_loop (write_count ip off n + 1) ip src off (write_count ip off n) 0 d mem)
