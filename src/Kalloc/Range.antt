-- ===== src/Kalloc/Range.antt =====
-- `freerange`: every whole page of a range is freed, once.
use operating_systems_cs.Base.{
  ℕ, zero, suc, ◌+◌, ◌*◌, ◌/◌, ◌%◌, ◌^◌, ◌<◌, ◌≤◌, ◌≡◌, ◌⊎◌, inl, List, [], ◌∷◌, arith, ltb, false,
}
use operating_systems_cs.Kalloc.{
  Kmem, pgsize, kernbase, phystop, pgroundup, done, free_pages, freerange,
}
use operating_systems_cs.Kalloc.FreeList.{IsPage, Absent, IsFree, kfree-IsFree}

-- `k` pages from `p` on, freed in turn on top of `xs`.
unfoldable pub pages : ℕ → ℕ → List ℕ → List ℕ
pages p zero xs = xs
pages p (suc k) xs = pages (p + pgsize) k (p ∷ xs)

-- No page of `xs` lies in the range from `p` to `vend`.
abbrev pub Beside : ℕ → ℕ → List ℕ → Type 0
Beside p vend [] = Unit
Beside p vend (x ∷ xs) = ((x < p) ⊎ (vend ≤ x)) × Beside p vend xs

Beside-Absent : (p vend : ℕ) (xs : List ℕ) → p < vend → Beside p vend xs → Absent p xs
Beside-Absent p vend [] h b = tt
Beside-Absent p vend (x ∷ xs) h (o, b) = (ground arith, Beside-Absent p vend xs h b)

Beside-suc : (p q vend : ℕ) (xs : List ℕ) → p ≤ q → Beside p vend xs → Beside q vend xs
Beside-suc p q vend [] h b = tt
Beside-suc p q vend (x ∷ xs) h (o, b) = (ground arith, Beside-suc p q vend xs h b)

module _ (kend vend : ℕ) (k : kernbase ≤ kend) (top : vend ≤ kernbase + phystop) where
  free_pages-IsFree :
      (fuel n p : ℕ) (s : Kmem) (xs : List ℕ)
      → p % pgsize ≡ 0
      → kend ≤ p
      → p + n * pgsize ≤ vend
      → vend < p + n * pgsize + pgsize
      → n < fuel
      → Beside p vend xs
      → IsFree kend s xs
      → (s' : Kmem) × (free_pages kend fuel p vend s ≡ done s') × IsFree kend s' (pages p n xs)
  unfolding free_pages pages
  free_pages-IsFree zero n p s xs a b lo hi f o free = absurd (omega arith)
  free_pages-IsFree (suc fuel) zero p s xs a b lo hi f o free = (s, ground arith, free)
  free_pages-IsFree (suc fuel) (suc n) p s xs a b lo hi f o free =
      let page : IsPage kend p = record { aligned = a; above = b; below = omega arith } in
      let (s', e, free') =
        kfree-IsFree kend p s xs k page (Beside-Absent p vend xs (omega arith) o) free in
      let (s'', e', free'') =
        free_pages-IsFree fuel n (p + pgsize) s' (p ∷ xs) (omega arith) (omega arith) (omega arith)
          (omega arith) (omega arith)
          (inl (omega arith), Beside-suc p (p + pgsize) vend xs (omega arith) o) free' in
      let wide : (p + pgsize) % 2 ^ 32 ≡ p + pgsize = omega arith in
      let more : ltb vend ((p + pgsize) % 2 ^ 32) ≡ false = ground arith in
      (s'', rw (more, e, wide) e', free'')

  -- Over a range above the kernel and below the top of memory that holds n whole pages, none of
  -- them free yet, freerange returns with enough rounds and has put exactly these pages on the free
  -- list, the last one on top.
  pub freerange-IsFree :
      (vstart n : ℕ) (s : Kmem) (xs : List ℕ)
      → kend ≤ vstart
      → vstart ≤ vend
      → pgroundup vstart + n * pgsize ≤ vend
      → vend < pgroundup vstart + n * pgsize + pgsize
      → Beside vstart vend xs
      → IsFree kend s xs
      → (s' : Kmem) × (freerange kend vstart vend s ≡ done s')
        × IsFree kend s' (pages (pgroundup vstart) n xs)
  unfolding freerange
  freerange-IsFree vstart n s xs b w lo hi o free =
      free_pages-IsFree (vend / pgsize + 1) n (pgroundup vstart) s xs (omega arith) (omega arith) lo
        hi (omega arith) (Beside-suc vstart (pgroundup vstart) vend xs (omega arith) o) free
