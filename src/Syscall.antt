-- ===== src/Syscall.antt =====
-- syscall.c, and the call of sysproc.c that reports the counts: arguments of system calls, and their
-- dispatch. Numbers are 32-bit patterns, where a negative int is 2 ^ 31 or more.
pub mod Arguments
pub mod Counts
mod Tests
use operating_systems_cs.Base.{
  ℕ, zero, suc, ◌+◌, ◌-◌, ◌*◌, ◌%◌, ◌^◌, Bool, true, false, not, ◌&&◌, ◌||◌, Option, none, some,
  List, [], ◌∷◌, ltb, leb, ◌==◌, if◌then◌else◌, update,
}

-- What the functions read of `proc`: its size, its stack pointer, and the bytes that the addresses
-- hold while it runs.
pub record User : Type 0 where
  pub sz : ℕ
  pub esp : ℕ
  pub mem : ℕ → ℕ

abbrev pub add32 : ℕ → ℕ → ℕ
add32 a b = (a + b) % 2 ^ 32

-- `*(int*)addr`
abbrev pub word_at : (ℕ → ℕ) → ℕ → ℕ
word_at m a = m a + m (a + 1) * 256 + m (a + 2) * 65536 + m (a + 3) * 16777216

-- `none` for -1, here and below; else what is left in `*ip`.
unfoldable pub fetchint : User → (addr : ℕ) → Option ℕ
fetchint u addr =
    if leb u.sz addr || ltb u.sz (add32 addr 4) then none else some (word_at u.mem addr)

-- The loop of `fetchstr` at `s`, with the bytes that are left before `ep`.
unfoldable pub find_end : (left s : ℕ) → (ℕ → ℕ) → Option ℕ
find_end zero s m = none
find_end (suc left) s m = let rest = find_end left (s + 1) m in if m s == 0 then some s else rest

-- What is left in `*pp`, and the length that it returns.
unfoldable pub fetchstr : User → (addr : ℕ) → Option (ℕ × ℕ)
fetchstr u addr =
    if leb u.sz addr
    then none
    else elim (find_end (u.sz - addr) addr u.mem) [ none ↦ none | some s ↦ some (addr, s - addr) ]

unfoldable pub argint : User → (n : ℕ) → Option ℕ
argint u n = fetchint u (add32 (u.esp + 4) (4 * n))

unfoldable pub argptr : User → (n size : ℕ) → Option ℕ
argptr u n size = elim (argint u n) [
  | none ↦ none
  | some i ↦ if leb (2 ^ 31) size || leb u.sz i || ltb u.sz (add32 i size) then none else some i
]

unfoldable pub argstr : User → (n : ℕ) → Option (ℕ × ℕ)
argstr u n = elim (argint u n) [ none ↦ none | some addr ↦ fetchstr u addr ]

-- The numbers of the calls that `syscall` counts, and the length of its table, which has an entry for
-- each number above 0.
abbrev pub numbers : List ℕ
numbers =
    1 ∷ 2 ∷ 3 ∷ 4 ∷ 5 ∷ 6 ∷ 7 ∷ 8 ∷ 9 ∷ 10 ∷ 11 ∷ 12 ∷ 13 ∷ 14 ∷ 15 ∷ 16 ∷ 17 ∷ 18 ∷ 19 ∷ 20 ∷ 21
    ∷ 22 ∷ []

abbrev pub nelem : ℕ
nelem = 23

abbrev pub sys_number : ℕ
sys_number = 22

-- The chain of tests on `num`.
pub is_counted : List ℕ → (num : ℕ) → Bool
is_counted [] num = false
is_counted (n ∷ ns) num = (num == n) || is_counted ns num

-- `sysCalls[i]++`
abbrev pub bump : (i : ℕ) → (ℕ → ℕ) → ℕ → ℕ
bump i calls = update calls i ((calls i + 1) % 2 ^ 32)

-- What `syscall` counts.
pub count_call : (num : ℕ) → (ℕ → ℕ) → ℕ → ℕ
count_call num calls =
    let calls = bump 0 calls in if is_counted numbers num then bump num calls else calls

-- `memset(sysCalls, 0, sizeof(sysCalls))`, for 23 ints.
abbrev pub clear_calls : (ℕ → ℕ) → ℕ → ℕ
clear_calls calls i = if ltb i 23 then 0 else calls i

-- The calls other than `sys_sysnumcall`, and `cprintf`, are parameters, over a state `S`.
module _ {S : Type 0} (call : (num : ℕ) → S → ℕ × S) (report : (ℕ → ℕ) → S → S) where
  pub sys_sysnumcall : (ℕ → ℕ) → S → ℕ × (ℕ → ℕ) × S
  sys_sysnumcall calls s = (0, clear_calls calls, report calls s)

  abbrev pub is_call : (num : ℕ) → Bool
  is_call num = ltb 0 num && ltb num (2 ^ 31) && ltb num nelem

  -- The value that is left in `eax`, the counts, and the state.
  pub syscall : (num : ℕ) → (ℕ → ℕ) → S → ℕ × (ℕ → ℕ) × S
  syscall num calls s =
      if is_call num
      then (let calls = count_call num calls in
          if num == sys_number
          then sys_sysnumcall calls s
          else (let (eax, s') = call num s in (eax, calls, s')))
      else (2 ^ 32 - 1, calls, report calls s)
