-- ===== src/Kalloc.antt =====
-- kalloc.c: the allocator of physical pages, a list threaded through the free pages.
mod Tests
pub mod FreeList
pub mod Range
use operating_systems_cs.Base.{
  ℕ, zero, suc, ◌+◌, ◌-◌, ◌*◌, ◌/◌, ◌%◌, ◌^◌, Bool, true, false, not, ◌&&◌, ◌||◌, Option, none,
  some, ltb, leb, ◌==◌, if◌then◌else◌, update,
}

abbrev pub pgsize : ℕ
pgsize = 4096

abbrev pub kernbase : ℕ
kernbase = 0x80000000

abbrev pub phystop : ℕ
phystop = 0xE000000

-- `V2P`, a subtraction of `uint`s.
abbrev pub v2p : ℕ → ℕ
v2p v = (v + 2 ^ 32 - kernbase) % 2 ^ 32

-- `PGROUNDUP`
abbrev pub pgroundup : ℕ → ℕ
pgroundup v = (v + (pgsize - 1)) % 2 ^ 32 / pgsize * pgsize

-- `kmem` without its lock, and the memory: `mem a` is the word at address `a`.
pub record Kmem : Type 0 where
  pub use_lock : Bool
  pub freelist : ℕ
  pub mem : ℕ → ℕ

-- `memset(v, 1, PGSIZE)`, as words.
pub junk : ℕ → (ℕ → ℕ) → ℕ → ℕ
junk v mem a = if leb v a && ltb a (v + pgsize) then 0x01010101 else mem a

-- How a loop over pages ends.
pub data FreeRange : Type 0 where
  done : Kmem → FreeRange
  panics : FreeRange
  out_of_fuel : FreeRange

pub kalloc : Kmem → ℕ × Kmem
kalloc s =
    if s.freelist == 0
    then (s.freelist, s)
    else (s.freelist, record s { freelist = s.mem s.freelist })

module _ (kend : ℕ) where
  -- `none` where `kfree` panics; `kend` is the linker's `end`.
  pub kfree : ℕ → Kmem → Option Kmem
  unfolding junk
  kfree v s =
      if not (v % pgsize == 0) || ltb v kend || leb phystop (v2p v)
      then none
      else some (record s { freelist = v; mem = update (junk v s.mem) v s.freelist })

  -- The loop of `freerange`, from `p` to `vend`.
  pub free_pages : ℕ → ℕ → ℕ → Kmem → FreeRange
  free_pages zero p vend s = out_of_fuel
  free_pages (suc fuel) p vend s =
      if ltb vend ((p + pgsize) % 2 ^ 32) then done s else elim (kfree p s) [
        | none ↦ panics
        | some s' ↦ free_pages fuel ((p + pgsize) % 2 ^ 32) vend s'
      ]

  -- One round for each page below `vend`, and the last test.
  pub freerange : ℕ → ℕ → Kmem → FreeRange
  unfolding free_pages kfree
  freerange vstart vend s = free_pages (vend / pgsize + 1) (pgroundup vstart) vend s

  pub kinit1 : ℕ → ℕ → Kmem → FreeRange
  unfolding freerange
  kinit1 vstart vend s = freerange vstart vend (record s { use_lock = false })

  pub kinit2 : ℕ → ℕ → Kmem → FreeRange
  unfolding freerange
  kinit2 vstart vend s = elim (freerange vstart vend s) [
    | done s' ↦ done (record s' { use_lock = true })
    | panics ↦ panics
    | out_of_fuel ↦ out_of_fuel
  ]
