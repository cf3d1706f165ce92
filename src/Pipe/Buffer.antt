-- ===== src/Pipe/Buffer.antt =====
-- The bytes in a pipe are a queue of at most PIPESIZE bytes, also where the counters wrap.
use operating_systems_cs.Base.{
  ℕ, zero, suc, ◌+◌, ◌-◌, ◌%◌, ◌^◌, ◌<◌, ◌≤◌, ◌≡◌, ◌≢◌, refl, ap, true, false, List, [], ◌∷◌, ◌++◌,
  arith, update,
}
use operating_systems_cs.Base.Lists.{length}
use operating_systems_cs.Pipe.{Pipe, pipe_size, put, is_full}

-- `n` bytes from counter `r` on.
pub window : (ℕ → ℕ) → ℕ → ℕ → List ℕ
window d r zero = []
window d r (suc n) = d (r % pipe_size) ∷ window d ((r + 1) % 2 ^ 32) n

-- How many bytes are in the pipe: the difference of two `uint`s.
abbrev pub count : Pipe → ℕ
count p = (p.nwrite + 2 ^ 32 - p.nread) % 2 ^ 32

-- The bytes in the pipe, oldest first.
unfoldable pub contents : Pipe → List ℕ
unfolding window
contents p = window p.bytes p.nread (count p)

pub record IsValid (p : Pipe) : Type 0 where
  pub nread_word : p.nread < 2 ^ 32
  pub nwrite_word : p.nwrite < 2 ^ 32
  pub fits : count p ≤ pipe_size

length-window : (d : ℕ → ℕ) (r n : ℕ) → length (window d r n) ≡ n
unfolding window
length-window d r zero = refl
length-window d r (suc n) = ap suc (length-window d ((r + 1) % 2 ^ 32) n)

pub length-contents : (p : Pipe) → length (contents p) ≡ count p
unfolding contents
length-contents p = length-window p.bytes p.nread (count p)

-- A byte behind the window, less than a turn on, leaves the window and extends it.
window-update :
    (d : ℕ → ℕ) (b n r w : ℕ)
    → r < 2 ^ 32
    → w ≡ (r + n) % 2 ^ 32
    → n < pipe_size
    → window (update d (w % pipe_size) b) r (suc n) ≡ window d r n ++ (b ∷ [])
unfolding window
window-update d b zero r w h e f =
    let same : w % pipe_size ≡ r % pipe_size = omega arith in ground arith
window-update d b (suc n) r w h e f =
    let ne : r % pipe_size ≢ w % pipe_size = omega arith in
    ground
      (arith, window-update d b n ((r + 1) % 2 ^ 32) w (omega arith) (omega arith) (omega arith))

module _ (p : Pipe) (v : IsValid p) where
  -- `nwrite == nread + PIPESIZE` says that PIPESIZE bytes are in the pipe.
  pub full_iff : (is_full p ≡ true → count p ≡ pipe_size) × (count p ≡ pipe_size → is_full p ≡ true)
  full_iff = (
    λ h. ground (arith, v.nread_word, v.nwrite_word),
    λ h. ground (arith, v.nread_word, v.nwrite_word),
  )

  pub not_full : count p < pipe_size → is_full p ≡ false
  not_full h = ground (arith, v.nread_word, v.nwrite_word)

  -- A byte that is put goes to the end.
  pub put_lem :
      (b : ℕ)
      → count p < pipe_size
      → IsValid (put b p)
        × (count (put b p) ≡ count p + 1)
        × (contents (put b p) ≡ contents p ++ (b ∷ []))
  unfolding put contents
  put_lem b h =
      let c : count (put b p) ≡ suc (count p) = omega (arith, v.nread_word, v.nwrite_word) in
      (
        record {
          nread_word = v.nread_word;
          nwrite_word = omega arith;
          fits = omega (arith, v.nread_word, v.nwrite_word);
        },
        omega arith,
        rw c (
            window-update p.bytes b (count p) p.nread p.nwrite v.nread_word
              (omega (arith, v.nread_word, v.nwrite_word)) h),
      )

  -- The byte at `nread` is the oldest.
  pub front_lem :
      p.nread ≢ p.nwrite
      → let p' = record p { nread = (p.nread + 1) % 2 ^ 32 } in
        IsValid p'
        × (count p ≡ suc (count p'))
        × (contents p ≡ p.bytes (p.nread % pipe_size) ∷ contents p')
  unfolding contents window
  front_lem h =
      let p' = record p { nread = (p.nread + 1) % 2 ^ 32 } in
      let c : count p ≡ suc (count p') = omega (arith, v.nread_word, v.nwrite_word) in
      (
        record {
          nread_word = omega arith;
          nwrite_word = v.nwrite_word;
          fits = omega (arith, v.fits);
        },
        c,
        rw c,
      )

  pub empty_lem : p.nread ≡ p.nwrite → contents p ≡ []
  unfolding contents window
  empty_lem h = let c : count p ≡ 0 = omega (arith, v.nread_word) in rw c
