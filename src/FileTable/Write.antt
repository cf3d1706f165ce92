-- ===== src/FileTable/Write.antt =====
-- `filewrite`: the loop ends, and what it returns.
use operating_systems_cs.Base.{
  ℕ, zero, suc, ◌+◌, ◌-◌, ◌≤◌, ◌<◌, ◌≡◌, ◌≢◌, refl, inl, inr, Bool-cases, false, Option, none, some,
  arith, ltb, ◌==◌, ==_refl, ==_sound, ap, if◌then◌else◌,
}
use operating_systems_cs.FileTable.{
  FileType, fd_none, fd_pipe, fd_inode, File, Transfer, count, panics, out_of_fuel, returned,
  max_chunk, write_chunk, chunk, written, settle, write_loop, filewrite,
}
use operating_systems_cs.FileTable.Calls.{Services}

abbrev pub least : ℕ → ℕ → ℕ
least a b = if ltb b a then b else a

module _ {F : Type 0} (svc : Services F) where
  chunk_bounds : (n : ℕ) → 0 < n → (0 < chunk svc n) × (chunk svc n ≤ n) × (chunk svc n ≤ max_chunk)
  chunk_bounds n h = ground arith

  abbrev rest_of : (fuel : ℕ) → File → (addr n i : ℕ) → F → Transfer × File × F
  rest_of fuel f addr n i s =
      let (r, f', s') = write_chunk svc f (addr + i) (chunk svc (n - i)) s in
      write_loop svc fuel f' addr n (i + chunk svc (n - i)) s'

  settle-ends :
      (o : Option ℕ) (c : ℕ) (f : File) (s : F) (rest : Transfer × File × F)
      → (o ≡ some c → rest.0 ≢ out_of_fuel)
      → (settle svc o c f s rest).0 ≢ out_of_fuel
  settle-ends none c f s rest h = λ e. cc
  settle-ends (some k) c f s rest h = elim (Bool-cases (k == c)) [
    | inl full ↦ rw full (h (ap some (==_sound k c full)))
    | inr short ↦ rw short (λ e. cc)
  ]

  write_loop-done :
      (fuel : ℕ) (f : File) (addr n : ℕ) (s : F)
      → write_loop svc (suc fuel) f addr n n s ≡ (count n, f, s)
  unfolding write_loop
  write_loop-done fuel f addr n s =
      let above : ltb n n ≡ false = ground arith in rw (write_loop, above, ==_refl n) refl

  write_loop-ends :
      (fuel : ℕ) (f : File) (addr n i : ℕ) (s : F)
      → i ≤ n
      → n - i < fuel
      → (write_loop svc fuel f addr n i s).0 ≢ out_of_fuel
  unfolding write_loop
  write_loop-ends zero f addr n i s h l = absurd (omega arith)
  write_loop-ends (suc fuel) f addr n i s h l = elim (Bool-cases (ltb i n)) [
    | inl below ↦
        let (r, f', s') = write_chunk svc f (addr + i) (chunk svc (n - i)) s in
        let less : i < n = ground arith in
        let (lo, hi, mx) = chunk_bounds (n - i) (omega arith) in
        rw (write_loop, below)
          (settle-ends r (chunk svc (n - i)) f' s' _ (λ full.
            write_loop-ends fuel f' addr n (i + written svc r) s'
              (omega (arith, ap (written svc) full)) (omega (arith, ap (written svc) full))))
    | inr above ↦
        let same : i ≡ n = ground arith in rw (same, write_loop-done fuel f addr n s) (λ e. cc)
  ]

  returned-ends : (o : Option ℕ) → returned o ≢ out_of_fuel
  returned-ends none e = cc
  returned-ends (some n) e = cc

  -- The rounds that filewrite has are enough, whatever the calls that it makes return.
  pub filewrite-returns :
      (f : File) (addr n : ℕ) (s : F) → (filewrite svc f addr n s).0 ≢ out_of_fuel
  unfolding filewrite
  filewrite-returns f addr n s = elim (Bool-cases f.writable) [
    | inr closed ↦ rw (filewrite, closed) (λ e. cc)
    | inl opened ↦ rw (filewrite, opened) (by_type f.type)
  ]
    where
      by_type :
          (t : FileType)
          → (elim t as (λ x. Transfer × File × F) [
            | fd_pipe ↦ let (r, s') = svc.pipewrite f.pipe addr n s in (returned r, f, s')
            | fd_inode ↦ write_loop svc (n + 1) f addr n 0 s
            | fd_none ↦ (panics, f, s)
          ]).0
            ≢ out_of_fuel
      by_type fd_none = λ e. cc
      by_type fd_pipe = returned-ends (svc.pipewrite f.pipe addr n s).0
      by_type fd_inode = write_loop-ends (n + 1) f addr n 0 s (omega arith) (omega arith)
