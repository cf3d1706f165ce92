-- ===== src/Kalloc/Tests.antt =====
-- The allocator over two pages.
use operating_systems_cs.Base.{ℕ, ◌+◌, ◌≡◌, refl, false, [], ◌∷◌, arith}
use operating_systems_cs.Kalloc.{Kmem, pgsize, pgroundup, kalloc, done, freerange}
use operating_systems_cs.Kalloc.FreeList.{IsPage, IsFree, kalloc-nil}
use operating_systems_cs.Kalloc.Range.{pages, freerange-IsFree}

abbrev none_free : Kmem
none_free = record { use_lock = false; freelist = 0; mem = λ a. 0 }

abbrev first : ℕ
first = 0x80100000

abbrev second : ℕ
second = 0x80101000

first-IsPage : IsPage first first
first-IsPage = omega arith

-- Of the range from just above the first page's start only the second page is whole.
unaligned : pgroundup (first + 1) ≡ second
unaligned = refl

abbrev one_free : Kmem
one_free = record { use_lock = false; freelist = first; mem = λ a. 0 }

kalloc-nil_example : kalloc none_free ≡ (0, none_free)
kalloc-nil_example = kalloc-nil first none_free refl

freerange-IsFree_example :
    (s' : Kmem) × (freerange first first (second + pgsize) none_free ≡ done s')
    × IsFree first s' (pages (pgroundup first) 2 [])
freerange-IsFree_example =
    freerange-IsFree first (second + pgsize) (omega arith) (omega arith) first 2 none_free []
      (omega arith) (omega arith) (omega arith) (omega arith) tt refl

pages_two : pages first 2 [] ≡ second ∷ first ∷ []
unfolding pages
pages_two = refl
