-- ===== src/Sysfile/Tests.antt =====
-- Calls of sysfile.c on a small kernel, and the witnesses of the properties. The state of the kernel
-- is what the call holds. Path 16 names the directory 1, path 32 the file 2, other paths nothing. No
-- place has a parent but path 64, with the name "a", which is not there; new inodes are 3.
use operating_systems_cs.Base.{
  ℕ, zero, suc, ◌-◌, ◌/◌, ◌%◌, ◌≡◌, refl, ap, ◌∙◌, true, false, Option, none, some, [], ◌∷◌, ◌==◌,
  ==_refl, if◌then◌else◌, arith,
}
use mathlib.Core.Path.{fun_ext}
use operating_systems_cs.FileTable.{File, fd_none}
use operating_systems_cs.Inode.{Inode}
use operating_systems_cs.Syscall.{User, argstr, argint, fetchstr, find_end, fetchint}
use operating_systems_cs.Sysfile.{
  Call, Services, State, ◌>>=◌, pure, kernel, branch, argfd, find_slot, fdalloc, close_both,
  fill_pipe, sys_dup,
}
use operating_systems_cs.Sysfile.Create.{create, sys_open, sys_mkdir, sys_mknod, sys_chdir}
use operating_systems_cs.Sysfile.Laws.{Laws}
use operating_systems_cs.Sysfile.Ledger.{Counts, plus, Ledger, holds, Gives, Spends, with_ref}
use operating_systems_cs.Sysfile.Links.{sys_link, sys_unlink}
use operating_systems_cs.Sysfile.Opening.{Keeps, path_calls_lem, sys_open-stays_open}
use operating_systems_cs.Sysfile.Slots.{FirstFree, sys_dup_lem, fill_pipe-none}

-- Words at the stack: the arguments are `a`, `b` and 0. No other byte is used but the strings, which
-- are empty.
abbrev user_of : (a b : ℕ) → User
user_of a b = record {
  sz = 128;
  esp = 100;
  mem = λ p. if p == 104 then a else if p == 108 then b % 256 else if p == 109 then b / 256 else 0;
}

-- A call that adds to what is held, where it holds what it needs.
abbrev moves : {A : Type 0} → A → (Ledger → Option Ledger) → Call Ledger A
moves a f l = elim (f l) [ none ↦ none | some m ↦ some (a, m) ]

abbrev keep : {A : Type 0} → A → Call Ledger A
keep a l = some (a, l)

abbrev begun : Ledger → Option Ledger
begun (holds d r l) = some (holds (suc d) r l)

abbrev ended : Ledger → Option Ledger
ended (holds zero r l) = none
ended (holds (suc d) r l) = some (holds d r l)

-- Once less for `ip`.
minus : (ip : ℕ) → Counts → Counts
minus ip r j = if j == ip then r j - 1 else r j

minus-plus : (ip : ℕ) (r : Counts) → minus ip (plus ip r) ≡ r
unfolding minus plus
minus-plus ip r = fun_ext (λ j. ground arith)

-- What is given back has to be there.
abbrev less : {A : Type 0} → (ip : ℕ) → Counts → (Counts → Option A) → Option A
less ip r f = elim (r ip) [ zero ↦ none | suc _ ↦ f (minus ip r) ]

plus_self : (ip : ℕ) (r : Counts) → plus ip r ip ≡ suc (r ip)
unfolding plus
plus_self ip r = rw (==_refl ip) refl

less-plus : {A : Type 0} (ip : ℕ) (r : Counts) (f : Counts → Option A) → less ip (plus ip r) f ≡ f r
less-plus ip r f = rw (plus_self ip r, less) (ap f (minus-plus ip r))

abbrev taken : (ip : ℕ) → Ledger → Option Ledger
taken ip (holds d r l) = some (holds d (plus ip r) l)

abbrev dropped : (ip : ℕ) → Ledger → Option Ledger
dropped ip (holds d r l) = less ip r λ r. some (holds d r l)

abbrev locked : (ip : ℕ) → Ledger → Option Ledger
locked ip (holds d r l) = some (holds d r (plus ip l))

abbrev unlocked : (ip : ℕ) → Ledger → Option Ledger
unlocked ip (holds d r l) = less ip l λ l. some (holds d r l)

abbrev released : (ip : ℕ) → Ledger → Option Ledger
released ip (holds d r l) = less ip r λ r. less ip l λ l. some (holds d r l)

abbrev find : {A : Type 0} → (A → ℕ) → Option A → Call Ledger (Option A)
find ip none = keep none
find ip (some a) = moves (some a) (taken (ip a))

abbrev inode_of : ℕ → Inode
inode_of ip = record {
  dev = 1;
  inum = ip;
  ref = 1;
  valid = true;
  busy = false;
  locked = true;
  type = ip;
  major = 0;
  minor = 0;
  nlink = 1;
  size = 32;
  addrs = λ _. 0;
}

abbrev file_of : File
file_of = record {
  type = fd_none;
  ref = 1;
  readable = false;
  writable = false;
  pipe = 0;
  ip = 0;
  off = 0;
}

abbrev small : (a b : ℕ) → Services Ledger
small a b = record {
  user = λ _. user_of a b;
  store_word = λ _ _ l. l;
  inode = λ ip _. inode_of ip;
  set_inode = λ _ _ l. l;
  file = λ _ _. file_of;
  set_file = λ _ _ l. l;
  begin_op = moves tt begun;
  end_op = moves tt ended;
  namei = λ p. find (λ ip. ip) (if p == 16 then some 1 else if p == 32 then some 2 else none);
  nameiparent = λ p. find (λ e. e.0) (if p == 64 then some (1, 97 ∷ []) else none);
  ilock = λ ip. moves tt (locked ip);
  iunlock = λ ip. moves tt (unlocked ip);
  iput = λ ip. moves tt (dropped ip);
  iunlockput = λ ip. moves tt (released ip);
  iupdate = λ _. keep tt;
  ialloc = λ _ _. find (λ ip. ip) (some 3);
  dirlookup = λ _ _. find (λ e. e.0) none;
  dirlink = λ _ _ _. keep (some tt);
  readi = λ _ _ _. keep none;
  writei = λ _ _ _. keep (some 16);
  filealloc = keep (some 7);
  filedup = λ _. keep tt;
  fileclose = λ _. keep tt;
  fileread = λ _ _ _. keep (some 0);
  filewrite = λ _ _ _. keep (some 0);
  filestat = λ _ _. keep (some 0);
  pipealloc = keep (some (8, 9));
  exec = λ _ _. keep none;
}

spends :
    {A : Type 0} (l : Ledger) (c : Call Ledger A) (f : A → Ledger)
    → Gives (λ l. l) f (c l)
    → Spends (λ l. l) l c f
spends l c f g = record { spend = λ t h. rw h g }

found :
    {A : Type 0} (ip : A → ℕ) (d : ℕ) (r l : Counts) (o : Option A)
    → Spends (λ l. l) (holds d r l) (find ip o) (with_ref ip d r l)
unfolding Gives
found ip d r l none = spends _ _ _ refl
found ip d r l (some a) = spends _ _ _ refl

gives_back :
    (l m : Ledger) (f : Ledger → Option Ledger)
    → f l ≡ some m
    → Spends (λ l. l) l (moves tt f) (λ _. m)
unfolding Gives
gives_back l m f e = spends l (moves tt f) (λ _. m) (rw (e, Gives) refl)

small-Laws : (a b : ℕ) → Laws (small a b) (λ l. l)
unfolding Gives
small-Laws a b = record {
  store_word_law = λ a w t. refl;
  set_inode_law = λ ip i t. refl;
  set_file_law = λ f file t. refl;
  begin_op_law = λ d r l. spends _ _ _ refl;
  end_op_law = λ d r l. spends _ _ _ refl;
  namei_law = λ d r l p. found (λ ip. ip) (suc d) r l _;
  nameiparent_law = λ d r l p. found (λ e. e.0) (suc d) r l _;
  ilock_law = λ d r l ip. spends _ _ _ refl;
  iunlock_law = λ d r l ip. gives_back _ _ _ (less-plus ip l (λ l. some (holds d (plus ip r) l)));
  iput_law = λ d r l ip. gives_back _ _ _ (less-plus ip r (λ r. some (holds (suc d) r l)));
  iunlockput_law = λ d r l ip. gives_back _ _ _ (
      less-plus ip r (λ r. less ip (plus ip l) λ l. some (holds (suc d) r l))
      ∙ less-plus ip l (λ l. some (holds (suc d) r l)));
  iupdate_law = λ d r l ip. spends _ _ _ refl;
  ialloc_law = λ d r l dev type. found (λ ip. ip) (suc d) r l (some 3);
  dirlookup_law = λ d r l dp name. found (λ e. e.0) d r (plus dp l) none;
  dirlink_law = λ d r l dp name inum. spends _ _ _ refl;
  readi_law = λ d r l ip off n. spends _ _ _ refl;
  writei_law = λ d r l ip src off. spends _ _ _ refl;
  filealloc_law = λ l. spends _ _ _ refl;
  fileclose_law = λ l f. spends _ _ _ refl;
}

abbrev no_inode : Counts
no_inode = λ _. 0

-- The process has a reference to its directory.
abbrev held_at_start : Ledger
held_at_start = holds 0 (plus 1 no_inode) no_inode

abbrev start : State Ledger
start = record { ofile = some 5 ∷ none ∷ some 6 ∷ none ∷ []; cwd = 1; kernel = held_at_start }

abbrev begun_state : State Ledger
begun_state = record {
  ofile = some 5 ∷ none ∷ some 6 ∷ none ∷ [];
  cwd = 1;
  kernel = holds 1 (plus 1 no_inode) no_inode;
}

path_calls_lem_example :
    Keeps (λ l. l) 0 no_inode no_inode (sys_link (small 32 64) start)
    × Keeps (λ l. l) 0 no_inode no_inode (sys_unlink (small 32 64) start)
    × Keeps (λ l. l) 0 no_inode no_inode (sys_mkdir (small 32 64) start)
    × Keeps (λ l. l) 0 no_inode no_inode (sys_mknod (small 32 64) start)
    × Keeps (λ l. l) 0 no_inode no_inode (sys_chdir (small 32 64) start)
path_calls_lem_example =
    path_calls_lem (small 32 64) (λ l. l) (small-Laws 32 64) 0 no_inode no_inode start refl

path_argument : argstr (user_of 80 512) 0 ≡ some (80, 0)
unfolding argstr argint fetchstr fetchint find_end
path_argument = refl

mode_argument : argint (user_of 80 512) 1 ≡ some 512
unfolding argint fetchint
mode_argument = refl

begins : kernel (moves tt begun) start ≡ some (tt, begun_state)
unfolding kernel
begins = refl

create_fails : create (small 80 512) 80 2 0 0 begun_state ≡ some (none, begun_state)
unfolding create kernel ◌>>=◌ branch pure
create_fails = refl

sys_open-stays_open_example :
    (sys_open (small 80 512) start ≡ some (none, begun_state))
    × ◌≡◌ {A = Ledger} begun_state.kernel (holds 1 (plus 1 no_inode) no_inode)
sys_open-stays_open_example =
    sys_open-stays_open (small 80 512) (λ l. l) (small-Laws 80 512) 0 (plus 1 no_inode) no_inode 80
      0 512 start begun_state begun_state path_argument mode_argument refl begins create_fails refl

file_argument : argfd (user_of 2 0) start.ofile 0 ≡ some (2, 6)
unfolding argfd argint fetchint
file_argument = refl

second_is_free : FirstFree start.ofile 1
unfolding FirstFree
second_is_free = tt

sys_dup_lem_example :
    sys_dup (small 2 0) start
    ≡ some (
      some 1,
      record { ofile = some 5 ∷ some 6 ∷ some 6 ∷ none ∷ []; cwd = 1; kernel = held_at_start },
    )
sys_dup_lem_example =
    sys_dup_lem (small 2 0) start 2 6 1 held_at_start file_argument refl second_is_free

-- One slot is free, which is filled and freed again.
abbrev one_slot : State Ledger
one_slot = record { ofile = some 5 ∷ none ∷ []; cwd = 1; kernel = held_at_start }

no_second_slot : fill_pipe (small 0 0) 0 8 9 one_slot ≡ some (none, one_slot)
unfolding fill_pipe fdalloc find_slot close_both kernel ◌>>=◌ branch pure
no_second_slot = refl

fill_pipe-none_example : one_slot.ofile ≡ one_slot.ofile
fill_pipe-none_example = fill_pipe-none (small 0 0) one_slot one_slot 0 8 9 no_second_slot
