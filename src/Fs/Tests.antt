-- ===== src/Fs/Tests.antt =====
-- A disk of ten blocks, and the witnesses of the properties of the block allocator.
use mathlib.Core.Logic.{◌↔◌}
use operating_systems_cs.Base.{
  ℕ, ◌<◌, ◌≡◌, ◌≢◌, refl, ap, true, false, none, some, [], arith, ◌==◌, if◌then◌else◌,
}
use operating_systems_cs.Fs.{Disk, Superblock, bblock, is_free_bit, balloc, bfree}
use operating_systems_cs.Fs.Bitmap.{IsReserved, AllBytes, balloc_lem, balloc-eq-none, bfree-balloc}
use operating_systems_cs.Fs.Scan.{is_free, taken}

abbrev sb : Superblock
sb = record { size = 10; ninodes = 8; inodestart = 1; bmapstart = 2 }

-- Blocks 0 to 2 are in use, and block 2 is the bitmap.
abbrev disk : Disk
disk = record { blocks = λ b i. if b == 2 then (if i == 0 then 7 else 0) else 1; logged = [] }

disk-AllBytes : AllBytes sb disk
disk-AllBytes b i = ground arith

disk-IsReserved : IsReserved sb disk
unfolding is_free_bit
disk-IsReserved y lt = ap (λ b. is_free sb disk b) (the_bitmap y lt)
  where
    the_bitmap : (y : ℕ) → y < 10 → bblock sb y ≡ 2
    the_bitmap y lt = omega arith

takes_3 : balloc sb disk ≡ some (3, taken sb 3 disk)
unfolding balloc
takes_3 = refl

balloc_lem_example :
    (3 < 10)
    × (is_free sb disk 3 ≡ true)
    × ((y : ℕ) → y < 3 → is_free sb disk y ≡ false)
    × ((y : ℕ)
        → y < 10
        → is_free sb (taken sb 3 disk) y ≡ (if 3 == y then false else is_free sb disk y))
    × ((i : ℕ) → (taken sb 3 disk).blocks 3 i ≡ 0)
    × ((c : ℕ) → c ≢ 3 → c ≢ 2 → (taken sb 3 disk).blocks c ≡ disk.blocks c)
balloc_lem_example = balloc_lem sb disk (taken sb 3 disk) 3 disk-AllBytes disk-IsReserved takes_3

balloc-eq-none_example : (balloc sb disk ≡ none) ↔ ((y : ℕ) → y < 10 → is_free sb disk y ≡ false)
balloc-eq-none_example = balloc-eq-none sb disk

bfree-balloc_example :
    (d : Disk) × (bfree sb 3 (taken sb 3 disk) ≡ some d)
    × ((y : ℕ) → y < 10 → is_free sb d y ≡ is_free sb disk y)
bfree-balloc_example =
    bfree-balloc sb disk (taken sb 3 disk) 3 disk-AllBytes disk-IsReserved takes_3
