-- ===== src/Kalloc/FreeList.antt =====
-- The free list stands for the stack of the free pages.
use operating_systems_cs.Base.{
  ℕ, ◌+◌, ◌%◌, ◌^◌, ◌<◌, ◌≤◌, ◌≡◌, ◌≢◌, refl, ==_ne, none, some, List, [], ◌∷◌, arith, update,
  Bool-cases, inl, inr, not, ◌||◌, ◌==◌, ltb, leb,
}
use operating_systems_cs.Kalloc.{Kmem, v2p, pgsize, kernbase, phystop, junk, kfree, kalloc}

-- A page that the allocator may manage, for a kernel that ends at `kend`.
pub record IsPage (kend v : ℕ) : Type 0 where
  pub aligned : v % pgsize ≡ 0
  pub above : kend ≤ v
  pub below : v < kernbase + phystop

abbrev pub Absent : ℕ → List ℕ → Type 0
Absent v [] = Unit
Absent v (x ∷ xs) = (v ≢ x) × Absent v xs

-- From `p` the words at the starts of the pages `xs` lead to 0.
abbrev pub Chain : ℕ → (ℕ → ℕ) → ℕ → List ℕ → Type 0
Chain kend mem p [] = p ≡ 0
Chain kend mem p (x ∷ xs) = (p ≡ x) × IsPage kend x × Absent x xs × Chain kend mem (mem x) xs

abbrev pub IsFree : ℕ → Kmem → List ℕ → Type 0
IsFree kend s xs = Chain kend s.mem s.freelist xs

-- What is written inside the page `v` does not reach the other pages.
Chain-junk :
    (kend v w p : ℕ) (mem : ℕ → ℕ) (xs : List ℕ)
    → v % pgsize ≡ 0
    → Absent v xs
    → Chain kend mem p xs
    → Chain kend (update (junk v mem) v w) p xs
unfolding junk
Chain-junk kend v w p mem [] a out c = c
Chain-junk kend v w p mem (x ∷ xs) a out (e, page, fresh, rest) =
    let same : update (junk v mem) v w x ≡ mem x = ground (arith, page.aligned) in
    (e, page, fresh, rw same (Chain-junk kend v w (mem x) mem xs a out.1 rest))

-- For an address of 32 bits and a kernel above KERNBASE, kfree panics exactly where the address is
-- not aligned to a page, lies below the end of the kernel, or lies at or above the top of physical
-- memory.
pub kfree-eq-none :
    (kend v : ℕ) (s : Kmem)
    → kernbase ≤ kend
    → v < 2 ^ 32
    → (kfree kend v s ≡ none → ¬ (IsPage kend v)) × (¬ (IsPage kend v) → kfree kend v s ≡ none)
unfolding kfree
kfree-eq-none kend v s k b = (
  λ e page. ground (arith, page.aligned, page.above, page.below),
  λ h. elim (Bool-cases (not (v % pgsize == 0) || ltb v kend || leb phystop (v2p v))) [
    | inl bad ↦ rw bad
    | inr good ↦
        absurd (h (record { aligned = ground arith; above = ground arith; below = ground arith }))
  ],
)

module _ (kend v : ℕ) (s : Kmem) (xs : List ℕ) (k : kernbase ≤ kend) (page : IsPage kend v)
    (out : Absent v xs) (free : IsFree kend s xs) where
  -- Where the free list stands for distinct pages xs of a kernel above KERNBASE, kfree of a page
  -- that is not among them succeeds, and the free list then stands for that page on top of xs.
  pub kfree-IsFree : (s' : Kmem) × (kfree kend v s ≡ some s') × IsFree kend s' (v ∷ xs)
  unfolding kfree
  kfree-IsFree = (
    record s { freelist = v; mem = update (junk v s.mem) v s.freelist },
    ground (arith, page.aligned, page.above, page.below),
    (
      refl,
      page,
      out,
      rw (here) (Chain-junk kend v s.freelist s.freelist s.mem xs page.aligned out free),
    ),
  )
    where
      here : update (junk v s.mem) v s.freelist v ≡ s.freelist
      here = ground arith

-- Where the free list stands for a page x on top of xs, kalloc returns x and leaves a list that
-- stands for xs.
pub kalloc-cons :
    (kend x : ℕ) (s : Kmem) (xs : List ℕ)
    → 0 < kend
    → IsFree kend s (x ∷ xs)
    → ((kalloc s).0 ≡ x) × IsFree kend (kalloc s).1 xs
unfolding kalloc
kalloc-cons kend x s xs k (e, page, fresh, rest) =
    rw (==_ne s.freelist 0 (omega (arith, page.above))) (e, rw e rest)

pub kalloc-nil : (kend : ℕ) (s : Kmem) → IsFree kend s [] → kalloc s ≡ (0, s)
unfolding kalloc
kalloc-nil kend s free = ground arith
