-- ===== src/Proc/Calls.antt =====
-- What proc.c calls in the rest of the kernel, over a state `F`: pages (kalloc.c), address spaces
-- (vm.c), open files (file.c), inodes (fs.c) and transactions (log.c). Pointers are numbers, 0 is
-- NULL. The calls return.
use operating_systems_cs.Base.{ℕ}

pub record Services (F : Type 0) : Type 0 where
  pub kalloc : F → ℕ × F
  pub kfree : ℕ → F → F
  pub copyuvm : (pgdir sz : ℕ) → F → ℕ × F
  pub freevm : ℕ → F → F
  pub filedup : ℕ → F → F
  pub fileclose : ℕ → F → F
  pub idup : ℕ → F → F
  pub iput : ℕ → F → F
  pub begin_op : F → F
  pub end_op : F → F
