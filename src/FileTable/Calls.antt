-- ===== src/FileTable/Calls.antt =====
-- What file.c calls in the rest of the kernel, over a state `F`: pipe.c, fs.c and log.c. Pointers are
-- numbers; `none` stands for a negative result. The calls return.
use operating_systems_cs.Base.{ℕ, Bool, Option}

pub record Services (F : Type 0) : Type 0 where
  pub pipeclose : (pipe : ℕ) (writable : Bool) → F → F
  pub piperead : (pipe addr n : ℕ) → F → Option ℕ × F
  pub pipewrite : (pipe addr n : ℕ) → F → Option ℕ × F
  pub begin_op : F → F
  pub end_op : F → F
  pub iput : ℕ → F → F
  pub ilock : ℕ → F → F
  pub iunlock : ℕ → F → F
  pub stati : (ip st : ℕ) → F → F
  pub readi : (ip addr off n : ℕ) → F → Option ℕ × F
  pub writei : (ip addr off n : ℕ) → F → Option ℕ × F
