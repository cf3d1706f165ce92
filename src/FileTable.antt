-- ===== src/FileTable.antt =====
-- file.c: the table of open files and its reference counts, and reads and writes through a file. The
-- counts of bytes are not negative.
pub mod Calls
pub mod Refs
pub mod Steps
pub mod Write
mod Tests
use operating_systems_cs.Base.{
  ℕ, zero, suc, ◌+◌, ◌-◌, ◌*◌, ◌/◌, ◌%◌, ◌^◌, Bool, true, false, not, Option, none, some, List, [],
  ◌∷◌, ltb, ◌==◌, if◌then◌else◌,
}
use operating_systems_cs.Base.Lists.{get_elem?, set}
use Calls.{Services}

pub data FileType : Type 0 where
  fd_none fd_pipe fd_inode : FileType

-- `struct file`
pub record File : Type 0 where
  pub type : FileType
  pub ref : ℕ
  pub readable : Bool
  pub writable : Bool
  pub pipe : ℕ
  pub ip : ℕ
  pub off : ℕ

-- The first slot without a reference, which gets one.
pub filealloc : List File → Option ℕ × List File
filealloc [] = (none, [])
filealloc (f ∷ fs) =
    let rest = filealloc fs in
    if f.ref == 0
    then (some 0, record f { ref = 1 } ∷ fs)
    else (elim rest.0 [ none ↦ none | some i ↦ some (suc i) ], f ∷ rest.1)

-- `none` where it panics, here and below. A pointer to a file is the number of its slot.
pub filedup : ℕ → List File → Option (List File)
filedup i t = elim (get_elem? t i) [
  | none ↦ none
  | some f ↦ if ltb f.ref 1 then none else some (set t i (record f { ref = f.ref + 1 }))
]

module _ {F : Type 0} (svc : Services F) where
  -- The end of `fileclose`, on the copy of the file.
  abbrev pub shut_down : File → F → F
  shut_down ff s = elim ff.type [
    | fd_pipe ↦ svc.pipeclose ff.pipe ff.writable s
    | fd_inode ↦ svc.end_op (svc.iput ff.ip (svc.begin_op s))
    | fd_none ↦ s
  ]

  pub fileclose : ℕ → List File → F → Option (List File × F)
  fileclose i t s = elim (get_elem? t i) [
    | none ↦ none
    | some f ↦
        if ltb f.ref 1
        then none
        else if ltb 0 (f.ref - 1)
        then some (set t i (record f { ref = f.ref - 1 }), s)
        else some (set t i (record f { ref = 0; type = fd_none }), shut_down f s)
  ]

  -- `true` for 0, `false` for -1.
  pub filestat : File → ℕ → F → Bool × F
  filestat f st s = elim f.type [
    | fd_inode ↦ (true, svc.iunlock f.ip (svc.stati f.ip st (svc.ilock f.ip s)))
    | _ ↦ (false, s)
  ]

-- How a read or a write ends.
pub data Transfer : Type 0 where
  count : ℕ → Transfer
  fails : Transfer
  panics : Transfer
  out_of_fuel : Transfer

abbrev pub returned : Option ℕ → Transfer
returned none = fails
returned (some n) = count n

-- `f->off += r`, if `r` is positive.
abbrev pub advance : Option ℕ → File → File
advance none f = f
advance (some r) f = record f { off = (f.off + r) % 2 ^ 32 }

abbrev pub logsize : ℕ
logsize = 30

abbrev pub max_chunk : ℕ
max_chunk = (logsize - 1 - 1 - 2) / 2 * 512

module _ {F : Type 0} (svc : Services F) where
  pub fileread : File → (addr n : ℕ) → F → Transfer × File × F
  fileread f addr n s = if not f.readable then (fails, f, s) else elim f.type [
    | fd_pipe ↦ let (r, s') = svc.piperead f.pipe addr n s in (returned r, f, s')
    | fd_inode ↦
        let (r, s') = svc.readi f.ip addr f.off n (svc.ilock f.ip s) in
        (returned r, advance r f, svc.iunlock f.ip s')
    | fd_none ↦ (panics, f, s)
  ]

  -- One chunk of `filewrite`: a transaction around `writei`.
  abbrev pub write_chunk : File → (addr n1 : ℕ) → F → Option ℕ × File × F
  write_chunk f addr n1 s =
      let (r, s') = svc.writei f.ip addr f.off n1 (svc.ilock f.ip (svc.begin_op s)) in
      (r, advance r f, svc.end_op (svc.iunlock f.ip s'))

  abbrev pub chunk : ℕ → ℕ
  chunk left = if ltb max_chunk left then max_chunk else left

  -- The `r` of `i += r`, which is made of no negative one.
  abbrev pub written : Option ℕ → ℕ
  written none = 0
  written (some r) = r

  -- What the loop makes of `r`, where it asked for `n1` bytes.
  abbrev pub settle :
      Option ℕ → (n1 : ℕ) (f : File) (s : F) (rest : Transfer × File × F) → Transfer × File × F
  settle none n1 f s rest = (fails, f, s)
  settle (some r) n1 f s rest = if r == n1 then rest else (panics, f, s)

  -- The loop of `filewrite` at the count `i`.
  pub write_loop : (fuel : ℕ) → File → (addr n i : ℕ) → F → Transfer × File × F
  write_loop zero f addr n i s = (out_of_fuel, f, s)
  write_loop (suc fuel) f addr n i s =
      let (r, f', s') = write_chunk f (addr + i) (chunk (n - i)) s in
      let rest = write_loop fuel f' addr n (i + written r) s' in
      if ltb i n
      then settle r (chunk (n - i)) f' s' rest
      else ((if i == n then count n else fails), f, s)

  -- A chunk has at least one byte, so `n` rounds and the last test are enough.
  pub filewrite : File → (addr n : ℕ) → F → Transfer × File × F
  unfolding write_loop
  filewrite f addr n s = if not f.writable then (fails, f, s) else elim f.type [
    | fd_pipe ↦ let (r, s') = svc.pipewrite f.pipe addr n s in (returned r, f, s')
    | fd_inode ↦ write_loop (n + 1) f addr n 0 s
    | fd_none ↦ (panics, f, s)
  ]
