-- ===== src/FileTable/Tests.antt =====
-- Two open files, transfers through them, and the witnesses of the properties.
use operating_systems_cs.Base.{
  ℕ, zero, suc, ◌+◌, ◌-◌, ◌≤◌, ◌≡◌, ◌≢◌, refl, true, false, none, some, List, [], ◌∷◌, ltb,
  if◌then◌else◌,
}
use operating_systems_cs.Base.Lists.{get_elem?}
use operating_systems_cs.FileTable.{
  fd_none, fd_inode, File, filealloc, fileclose, shut_down, Transfer, filewrite,
}
use operating_systems_cs.FileTable.Calls.{Services}
use operating_systems_cs.FileTable.Refs.{refs, Counted}
use operating_systems_cs.FileTable.Steps.{Ledger, Reach, here, next, allocs, others, fileclose-last}
use operating_systems_cs.FileTable.Write.{least, filewrite-returns}

-- The state is the size of the file; `limit` is the most that it may have.
abbrev svc : ℕ → Services ℕ
svc limit = record {
  pipeclose = λ pipe writable s. s + 1000;
  piperead = λ pipe addr n s. (none, s);
  pipewrite = λ pipe addr n s. (none, s);
  begin_op = λ s. s;
  end_op = λ s. s;
  iput = λ ip s. s + 100000;
  ilock = λ ip s. s;
  iunlock = λ ip s. s;
  stati = λ ip st s. s;
  readi = λ ip addr off n s. (none, s);
  writei = λ ip addr off n s.
      if ltb s off
      then (none, s)
      else let r = least n (limit - off) in (some r, (if ltb s (off + r) then off + r else s));
}

abbrev free_file : File
free_file = record {
  type = fd_none;
  ref = 0;
  readable = false;
  writable = false;
  pipe = 0;
  ip = 0;
  off = 0;
}

abbrev inode_file : File
inode_file = record free_file { type = fd_inode; ref = 1; writable = true; ip = 7; off = 10 }

second_slot : (filealloc (inode_file ∷ free_file ∷ [])).0 ≡ some 1
unfolding filealloc
second_slot = refl

abbrev start : Ledger ℕ
start = record { table = free_file ∷ free_file ∷ []; holders = []; other = 0 }

start-Counted : Counted start.table start.holders
start-Counted zero = refl
start-Counted (suc zero) = refl
start-Counted (suc (suc j)) = refl

abbrev opened : Ledger ℕ
opened = record { table = inode_file ∷ free_file ∷ []; holders = 0 ∷ []; other = 0 }

-- `sys_open` fills in the file.
same_refs : (j : ℕ) → refs opened.table j ≡ refs (record free_file { ref = 1 } ∷ free_file ∷ []) j
same_refs zero = refl
same_refs (suc zero) = refl
same_refs (suc (suc j)) = refl

start-opened : Reach (svc 52) start opened
unfolding filealloc
start-opened = next (next here (allocs 0 refl)) (others same_refs)

fileclose-last_example :
    (f : File) × (t' : List File) × (get_elem? opened.table 0 ≡ some f)
    × (fileclose (svc 52) 0 opened.table 0 ≡ some (t', shut_down (svc 52) f 0))
fileclose-last_example = fileclose-last (svc 52) 0 [] [] start-Counted start-opened

-- More than two chunks.
long_write : (filewrite (svc 20000) inode_file 0 15000 10).2 ≡ 15010
unfolding filewrite
long_write = refl

Within : (ip off size : ℕ) → Type 0
Within ip off size = off ≤ size

filewrite-returns_example : (filewrite (svc 52) inode_file 0 53 0).0 ≢ Transfer.out_of_fuel
filewrite-returns_example = filewrite-returns (svc 52) inode_file 0 53 0

-- The close of the last reference frees the slot and puts the inode.
last_close :
    fileclose (svc 52) 0 opened.table 0
    ≡ some (record inode_file { type = fd_none; ref = 0 } ∷ free_file ∷ [], 100000)
unfolding fileclose
last_close = refl
