-- ===== src/Syscall/Arguments.antt =====
-- The arguments that the kernel takes lie in the memory of the process.
use mathlib.Core.Logic.{◌↔◌}
use operating_systems_cs.Base.{
  ℕ, zero, suc, ◌+◌, ◌-◌, ◌*◌, ◌^◌, ◌<◌, ◌≤◌, ◌≡◌, ◌≢◌, refl, sym, ◌∙◌, inl, inr, true, false, ◌||◌,
  Option, none, some, arith, ltb, leb, ◌==◌, ==_sound, Bool-cases, Option-cases, some-ne-none,
}
use operating_systems_cs.Syscall.{
  User, add32, word_at, fetchint, find_end, fetchstr, argint, argptr, argstr,
}

-- The size of user memory is below KERNBASE, so its sums do not wrap.
abbrev kernbase : ℕ
kernbase = 2 ^ 31

some_inj : {a b : ℕ} → some a ≡ some b → a ≡ b
some_inj e = cc

-- fetchint gives the word at an address exactly when its four bytes lie below the size.
pub fetchint_lem :
    (u : User) (addr w : ℕ)
    → u.sz ≤ kernbase
    → (fetchint u addr ≡ some w) ↔ ((addr + 4 ≤ u.sz) × (w ≡ word_at u.mem addr))
unfolding fetchint
fetchint_lem u addr w h = (
  λ e. elim (Bool-cases (leb u.sz addr || ltb u.sz (add32 addr 4))) [
    | inl out ↦ absurd (some-ne-none e (rw out refl))
    | inr inside ↦
        let same : word_at u.mem addr ≡ w = some_inj (rw inside at e) in (ground arith, omega arith)
  ],
  λ (le, e).
      let inside : (leb u.sz addr || ltb u.sz (add32 addr 4)) ≡ false = ground arith in
      rw inside (rw e refl),
)

-- The place of argument `n`.
abbrev pub arg_place : User → ℕ → ℕ
arg_place u n = add32 (u.esp + 4) (4 * n)

argint_lem :
    (u : User) (n w : ℕ)
    → u.sz ≤ kernbase
    → (argint u n ≡ some w) ↔ ((arg_place u n + 4 ≤ u.sz) × (w ≡ word_at u.mem (arg_place u n)))
unfolding argint
argint_lem u n w h = fetchint_lem u (arg_place u n) w h

-- Where the size of the process is at most KERNBASE, argptr succeeds with a pointer exactly if the
-- argument, also where its place wraps, lies in the memory of the process and is that pointer, the
-- size is not negative, and the pointer and the block of that size behind it lie in the memory of
-- the process.
pub argptr_lem :
    (u : User) (n size p : ℕ)
    → u.sz ≤ kernbase
    → (argptr u n size ≡ some p) ↔ (
        (arg_place u n + 4 ≤ u.sz)
        × (p ≡ word_at u.mem (arg_place u n))
        × (size < 2 ^ 31)
        × (p < u.sz)
        × (p + size ≤ u.sz))
unfolding argptr
argptr_lem u n size p h = elim (Option-cases (argint u n)) [
  | inl outside ↦ (
    λ e. absurd (some-ne-none e (rw (argptr, outside) refl)),
    λ (le, w, sized, lt, fits). absurd (some-ne-none ((argint_lem u n p h).1 (le, w)) outside),
  )
  | inr (i, got) ↦
      let (le, word) = (argint_lem u n i h).0 got in
      (
        λ e. elim (Bool-cases (leb (2 ^ 31) size || leb u.sz i || ltb u.sz (add32 i size))) [
          | inl refused ↦ absurd (some-ne-none e (rw (argptr, got, refused) refl))
          | inr taken ↦
              let same : i ≡ p = some_inj (rw (argptr, got, taken) at e) in
              (le, omega arith, ground arith, ground arith, ground arith)
        ],
        λ (le', w, sized, lt, fits).
            let same : i ≡ p = omega arith in
            let taken : (leb (2 ^ 31) size || leb u.sz i || ltb u.sz (add32 i size)) ≡ false =
              ground arith in
            rw (argptr, got, taken) (rw same refl),
      )
]

-- `e` is the place of the first zero byte from `s` on.
abbrev pub FirstZero : (ℕ → ℕ) → (s e : ℕ) → Type 0
FirstZero m s e = (s ≤ e) × (m e ≡ 0) × ((k : ℕ) → s ≤ k → k < e → m k ≢ 0)

find_end-some :
    (left s e : ℕ) (m : ℕ → ℕ) → find_end left s m ≡ some e → FirstZero m s e × (e < s + left)
unfolding find_end
find_end-some zero s e m h = cc
find_end-some (suc left) s e m h = elim (Bool-cases (m s == 0)) [
  | inl zero_byte ↦
      let same : s ≡ e = some_inj (rw zero_byte at h) in
      (
        (omega arith, rw (← same) (==_sound (m s) 0 zero_byte), λ k l lt. absurd (omega arith)),
        omega arith,
      )
  | inr other ↦
      let ((le, z, before), lt) = find_end-some left (s + 1) e m (rw other at h) in
      (
        (
          omega arith,
          z,
          λ k l lt. elim (Bool-cases (k == s)) [
            | inl here ↦ rw (==_sound k s here) (λ zero_byte. ground arith)
            | inr later ↦ before k (ground arith) lt
          ],
        ),
        omega arith,
      )
]

find_end-FirstZero :
    (left s e : ℕ) (m : ℕ → ℕ) → FirstZero m s e → e < s + left → find_end left s m ≡ some e
unfolding find_end
find_end-FirstZero zero s e m (le, z, before) lt = absurd (omega arith)
find_end-FirstZero (suc left) s e m (le, z, before) lt = elim (Bool-cases (s == e)) [
  | inl here ↦
      let same : s ≡ e = ==_sound s e here in
      let zero_byte : (m s == 0) ≡ true = rw same (rw z refl) in rw zero_byte (rw same refl)
  | inr away ↦
      let lt' : s < e = ground arith in
      let no : m s ≢ 0 = before s (omega arith) lt' in
      let other : (m s == 0) ≡ false = ground arith in
      rw other (
        find_end-FirstZero left (s + 1) e m (omega arith, z, λ k l. before k (omega arith))
          (omega arith))
]

fetchstr_lem :
    (u : User) (addr a len : ℕ)
    → (fetchstr u addr ≡ some (a, len))
      ↔ ((a ≡ addr) × (addr + len < u.sz) × FirstZero u.mem addr (addr + len))
unfolding fetchstr
fetchstr_lem u addr a len = (
  λ e. elim (Bool-cases (leb u.sz addr)) [
    | inl out ↦ absurd (no_result (rw (fetchstr, out) at e))
    | inr inside ↦ elim (Option-cases (find_end (u.sz - addr) addr u.mem)) [
      | inl none_found ↦ absurd (no_result (rw (fetchstr, inside, none_found) at e))
      | inr (s, got) ↦
          let (first, lt) = find_end-some (u.sz - addr) addr s u.mem got in
          let (same_a, same_len) = pair_inj (rw (fetchstr, inside, got) at e) in
          let place : s ≡ addr + len = omega (arith, first.0) in
          (sym same_a, ground arith, rw place at first)
    ]
  ],
  λ (same, lt, first).
      let inside : leb u.sz addr ≡ false = ground arith in
      let len_of : addr + len - addr ≡ len = omega arith in
      rw
        (
          fetchstr,
          inside,
          find_end-FirstZero (u.sz - addr) addr (addr + len) u.mem first (omega arith),
        )
        (rw (len_of, same) refl),
)
  where
    no_result : ◌≡◌ {A = Option (ℕ × ℕ)} none (some (a, len)) → ⊥
    no_result h = cc

    pair_inj :
        {b c : ℕ} → ◌≡◌ {A = Option (ℕ × ℕ)} (some (b, c)) (some (a, len)) → (b ≡ a) × (c ≡ len)
    pair_inj h = (cc, cc)

-- Where the size of the process is at most KERNBASE, argstr succeeds with an address and a length
-- exactly if the argument lies in the memory of the process and is that address, and the first zero
-- byte from there on is at that length and lies in the memory of the process.
pub argstr_lem :
    (u : User) (n a len : ℕ)
    → u.sz ≤ kernbase
    → (argstr u n ≡ some (a, len)) ↔ (
        (arg_place u n + 4 ≤ u.sz)
        × (a ≡ word_at u.mem (arg_place u n))
        × (a + len < u.sz)
        × FirstZero u.mem a (a + len))
unfolding argstr
argstr_lem u n a len h = elim (Option-cases (argint u n)) [
  | inl outside ↦ (
    λ e. absurd (no_result (rw (argstr, outside) at e)),
    λ (le, w, lt, first). absurd (some-ne-none ((argint_lem u n a h).1 (le, w)) outside),
  )
  | inr (i, got) ↦
      let (le, word) = (argint_lem u n i h).0 got in
      (
        λ e.
            let (same, lt, first) = (fetchstr_lem u i a len).0 (rw (argstr, got) at e) in
            (le, same ∙ word, rw same lt, rw same first),
        λ (le', w, lt, first).
            let same : a ≡ i = w ∙ sym word in
            rw (argstr, got) ((fetchstr_lem u i a len).1 (same, rw (← same) lt, rw (← same) first)),
      )
]
  where
    no_result : ◌≡◌ {A = Option (ℕ × ℕ)} none (some (a, len)) → ⊥
    no_result h = cc
