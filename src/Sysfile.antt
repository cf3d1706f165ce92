-- ===== src/Sysfile.antt =====
-- sysfile.c: the calls on descriptors, over the state of the process and of the rest of the kernel.
-- Pointers are numbers, `none` is a null pointer or -1.
pub mod Links
pub mod Create
pub mod Ledger
pub mod Laws
pub mod Balance
pub mod Opening
pub mod Slots
mod Tests
use operating_systems_cs.Base.{
  ℕ, zero, suc, ◌+◌, ◌*◌, ◌%◌, ◌^◌, Bool, true, false, Option, none, some, List, [], ◌∷◌, ltb,
}
use operating_systems_cs.Base.Lists.{get_elem?, set}
use operating_systems_cs.FileTable.{File}
use operating_systems_cs.Inode.{Inode}
use operating_systems_cs.Syscall.{User, fetchint, fetchstr, argint, argptr, argstr}

-- A call into the rest of the kernel, over its state `S`; `none` where it panics.
abbrev pub Call : Type 0 → Type 0 → Type 0
Call S A = S → Option (A × S)

-- What sysfile.c uses of file.c, fs.c, log.c, pipe.c and exec.c. A name is a string of 14 bytes at
-- most, less the 0. Fields are read and set through `inode` and `file`.
pub record Services (S : Type 0) : Type 0 where
  pub user : S → User
  pub store_word : (addr w : ℕ) → S → S
  pub inode : ℕ → S → Inode
  pub set_inode : ℕ → Inode → S → S
  pub file : ℕ → S → File
  pub set_file : ℕ → File → S → S
  pub begin_op : Call S (Unit {0})
  pub end_op : Call S (Unit {0})
  pub namei : (path : ℕ) → Call S (Option ℕ)
  pub nameiparent : (path : ℕ) → Call S (Option (ℕ × List ℕ))
  pub ilock : ℕ → Call S (Unit {0})
  pub iunlock : ℕ → Call S (Unit {0})
  pub iput : ℕ → Call S (Unit {0})
  pub iunlockput : ℕ → Call S (Unit {0})
  pub iupdate : ℕ → Call S (Unit {0})
  pub ialloc : (dev type : ℕ) → Call S (Option ℕ)
  pub dirlookup : (dp : ℕ) (name : List ℕ) → Call S (Option (ℕ × ℕ))
  pub dirlink : (dp : ℕ) (name : List ℕ) (inum : ℕ) → Call S (Option (Unit {0}))
  pub readi : (ip off n : ℕ) → Call S (Option (List ℕ))
  pub writei : (ip : ℕ) (src : List ℕ) (off : ℕ) → Call S (Option ℕ)
  pub filealloc : Call S (Option ℕ)
  pub filedup : ℕ → Call S (Unit {0})
  pub fileclose : ℕ → Call S (Unit {0})
  pub fileread : (f p n : ℕ) → Call S (Option ℕ)
  pub filewrite : (f p n : ℕ) → Call S (Option ℕ)
  pub filestat : (f st : ℕ) → Call S (Option ℕ)
  pub pipealloc : Call S (Option (ℕ × ℕ))
  pub exec : (path : ℕ) (argv : List ℕ) → Call S (Option ℕ)

-- `proc->ofile` and `proc->cwd`, and the rest.
pub record State (S : Type 0) : Type 0 where
  pub ofile : List (Option ℕ)
  pub cwd : ℕ
  pub kernel : S

-- What runs for the process; `none` where the kernel panics.
abbrev pub M : Type 0 → Type 0 → Type 0
M S A = State S → Option (A × State S)

infixl 5 ◌>>=◌ ◌>>◌
unfoldable pub ◌>>=◌ : {S A B : Type 0} → M S A → (A → M S B) → M S B
◌>>=◌ m f s = elim (m s) [ none ↦ none | some (a, s') ↦ f a s' ]

abbrev pub ◌>>◌ : {S B : Type 0} → M S (Unit {0}) → M S B → M S B
m >> n = m >>= λ _. n

unfoldable pub pure : {S A : Type 0} → A → M S A
pure a s = some (a, s)

unfoldable pub panic : {S A : Type 0} → M S A
panic s = none

-- `return -1`
abbrev pub fail : {S A : Type 0} → M S (Option A)
fail = pure none

unfoldable pub kernel : {S A : Type 0} → Call S A → M S A
kernel f s = elim (f s.kernel) [ none ↦ none | some (a, t) ↦ some (a, record s { kernel = t }) ]

unfoldable pub gets : {S A : Type 0} → (State S → A) → M S A
gets f s = some (f s, s)

unfoldable pub modify : {S : Type 0} → (S → S) → M S (Unit {0})
modify f s = some (tt, record s { kernel = f s.kernel })

-- Goes on with a value if it is there; else the call returns -1.
unfoldable pub try : {S A B : Type 0} → Option A → (A → M S (Option B)) → M S (Option B)
try none f = fail
try (some a) f = f a

-- The two cases of a result.
unfoldable pub branch : {S A B : Type 0} → Option A → M S B → (A → M S B) → M S B
branch none m f = m
branch (some a) m f = f a

abbrev pub nofile : ℕ
nofile = 16

-- The descriptor, if it is open, and its file.
abbrev pub opened : List (Option ℕ) → (fd : ℕ) → Option (ℕ × ℕ)
opened ofile fd = elim (ltb fd nofile) [
  | false ↦ none
  | true ↦ elim (get_elem? ofile fd) [
    | none ↦ none
    | some none ↦ none
    | some (some f) ↦ some (fd, f)
  ]
]

pub argfd : User → List (Option ℕ) → (n : ℕ) → Option (ℕ × ℕ)
argfd u ofile n = elim (argint u n) [ none ↦ none | some fd ↦ opened ofile fd ]

-- The loop of `fdalloc`, from slot `fd` on.
unfoldable pub find_slot : List (Option ℕ) → (fd f : ℕ) → Option (ℕ × List (Option ℕ))
find_slot [] fd f = none
find_slot (none ∷ ofile) fd f = some (fd, some f ∷ ofile)
find_slot (some g ∷ ofile) fd f = elim (find_slot ofile (fd + 1) f) [
  | none ↦ none
  | some (i, ofile') ↦ some (i, some g ∷ ofile')
]

unfoldable pub fdalloc : {S : Type 0} → (f : ℕ) → M S (Option ℕ)
fdalloc f s = elim (find_slot s.ofile 0 f) [
  | none ↦ some (none, s)
  | some (fd, ofile) ↦ some (some fd, record s { ofile = ofile })
]

-- `proc->cwd = ip`
unfoldable pub set_cwd : {S : Type 0} → (ip : ℕ) → M S (Unit {0})
set_cwd ip s = some (tt, record s { cwd = ip })

-- `proc->ofile[fd] = 0`
abbrev pub clear_slot : {S : Type 0} → (fd : ℕ) → M S (Unit {0})
clear_slot fd s = some (tt, record s { ofile = set s.ofile fd none })

-- The loop of `sys_exec` from place `i` on, with `left` places of `argv` from there.
pub fetch_args : User → (uargv left i : ℕ) → Option (List ℕ)
fetch_args u uargv zero i = none
fetch_args u uargv (suc left) i = elim (fetchint u ((uargv + 4 * i) % 2 ^ 32)) [
  | none ↦ none
  | some zero ↦ some []
  | some (suc a) ↦ elim (fetchstr u (suc a)) [
    | none ↦ none
    | some (p, _) ↦ elim (fetch_args u uargv left (i + 1)) [ none ↦ none | some ps ↦ some (p ∷ ps) ]
  ]
]

module _ {S : Type 0} (k : Services S) where
  -- The arguments of the call.
  abbrev pub arg : {A : Type 0} → (User → A) → M S A
  arg f = gets (λ s. f (k.user s.kernel))

  abbrev pub arg_file : (n : ℕ) → M S (Option (ℕ × ℕ))
  arg_file n = gets (λ s. argfd (k.user s.kernel) s.ofile n)

  unfoldable pub sys_dup : M S (Option ℕ)
  sys_dup = do
    file ← arg_file 0
    try file λ (_, f). do slot ← fdalloc f; try slot λ fd. do kernel (k.filedup f); pure (some fd)

  -- `sys_read` and `sys_write`, which call `fileread` and `filewrite`.
  abbrev pub transfer : ((f p n : ℕ) → Call S (Option ℕ)) → M S (Option ℕ)
  transfer io = do
    file ← arg_file 0
    try file λ (_, f). do
      size ← arg (λ u. argint u 2)
      try size λ n. do place ← arg (λ u. argptr u 1 n); try place λ p. kernel (io f p n)

  unfoldable pub sys_read : M S (Option ℕ)
  sys_read = transfer k.fileread

  unfoldable pub sys_write : M S (Option ℕ)
  sys_write = transfer k.filewrite

  unfoldable pub sys_close : M S (Option ℕ)
  sys_close = do
    file ← arg_file 0
    try file λ (fd, f). do clear_slot fd; kernel (k.fileclose f); pure (some 0)

  -- `sizeof(struct stat)` is 20.
  unfoldable pub sys_fstat : M S (Option ℕ)
  sys_fstat = do
    file ← arg_file 0
    try file λ (_, f). do place ← arg (λ u. argptr u 1 20); try place λ st. kernel (k.filestat f st)

  -- Where there is no slot for both files.
  unfoldable pub close_both : (rf wf : ℕ) → M S (Option ℕ)
  close_both rf wf = do kernel (k.fileclose rf); kernel (k.fileclose wf); fail

  -- From the first `fdalloc` on.
  unfoldable pub fill_pipe : (fd rf wf : ℕ) → M S (Option ℕ)
  fill_pipe fd rf wf = do
    first ← fdalloc rf
    branch first (close_both rf wf) λ fd0. do
      second ← fdalloc wf
      branch second (do clear_slot fd0; close_both rf wf)
          λ fd1. do
            modify (k.store_word fd fd0)
            modify (k.store_word ((fd + 4) % 2 ^ 32) fd1)
            pure (some 0)

  unfoldable pub sys_pipe : M S (Option ℕ)
  sys_pipe = do
    place ← arg (λ u. argptr u 0 8)
    try place λ fd. do files ← kernel k.pipealloc; try files λ (rf, wf). fill_pipe fd rf wf

  unfoldable pub sys_exec : M S (Option ℕ)
  sys_exec = do
    first ← arg (λ u. argstr u 0)
    try first λ (path, _). do
      second ← arg (λ u. argint u 1)
      try second λ uargv. do
        args ← arg (λ u. fetch_args u uargv 32 0)
        try args λ argv. kernel (k.exec path argv)
