-- ===== src/Log/Absorb.antt =====
-- `log_write`: a block that is logged already is not logged again.
use operating_systems_cs.Base.{
  ℕ, zero, suc, ◌+◌, ◌<◌, ◌≤◌, ◌≡◌, refl, ◌≢◌, inl, inr, true, false, ◌||◌, some, arith, ◌==◌,
  if◌then◌else◌, Bool-cases, ==_sound,
}
use operating_systems_cs.Log.{Log, BufFlags, find_block, log_write}
use operating_systems_cs.Log.Rounds.{listed}

-- What the search returns: the first entry `b` from `i` on, or the end.
record Found (blk : ℕ → ℕ) (k i b r : ℕ) : Type 0 where
  low : i ≤ r
  high : r ≤ i + k
  hit : r < i + k → blk r ≡ b
  first : (j : ℕ) → i ≤ j → j < r → blk j ≢ b

find_block-Found : (blk : ℕ → ℕ) (k i b : ℕ) → Found blk k i b (find_block blk k i b)
unfolding find_block
find_block-Found blk zero i b = record {
  low = omega arith;
  high = omega arith;
  hit = λ p. absurd (omega arith);
  first = λ j p q. absurd (omega arith);
}
find_block-Found blk (suc k) i b =
    let v = find_block-Found blk k (i + 1) b in
    record {
      low = ground (arith, v.low);
      high = ground (arith, v.high);
      hit = ground (arith, v.hit);
      first = λ j p q. ground (arith, v.first j);
    }

listed_of_entry : (blk : ℕ → ℕ) (n j b : ℕ) → j < n → blk j ≡ b → listed blk n b ≡ true
unfolding listed
listed_of_entry blk zero j b h e = elim h [ ]
listed_of_entry blk (suc n) j b h e = ground (arith, listed_of_entry blk n j b)

not_listed : (blk : ℕ → ℕ) (n b : ℕ) → ((j : ℕ) → j < n → blk j ≢ b) → listed blk n b ≡ false
unfolding listed
not_listed blk zero b h = refl
not_listed blk (suc n) b h = ground (arith, h n, not_listed blk n b (λ j p. h j (omega arith)))

listed-congr :
    (blk blk' : ℕ → ℕ) (n c : ℕ)
    → ((j : ℕ) → j < n → blk j ≡ blk' j)
    → listed blk n c ≡ listed blk' n c
unfolding listed
listed-congr blk blk' zero c h = refl
listed-congr blk blk' (suc n) c h =
    ground (arith, h n, listed-congr blk blk' n c (λ j p. h j (omega arith)))

-- No block is logged twice.
abbrev pub NoRepeats : (ℕ → ℕ) → ℕ → Type 0
NoRepeats blk n = (i j : ℕ) → i < j → j < n → blk i ≢ blk j

-- The entries after `block[i] = b`, where `i` is what the search returned.
module _ (blk : ℕ → ℕ) (n b : ℕ) where
  slot : ℕ
  slot = find_block blk n 0 b

  found : Found blk n 0 b slot
  unfolding slot
  found = find_block-Found blk n 0 b

  slot-listed : slot < n → listed blk n b ≡ true
  slot-listed p = listed_of_entry blk n slot b p (found.hit (omega arith))

  slot_not-listed : slot ≡ n → listed blk n b ≡ false
  slot_not-listed e = not_listed blk n b (λ j p. found.first j (omega arith) (omega arith))

module _ (l : Log) (b : ℕ) (f : BufFlags) {l' : Log} {f' : BufFlags}
    (e : log_write l b f ≡ some (l', f')) where
  abbrev i : ℕ
  i = slot l.lh.block l.lh.n b

  Found-i : Found l.lh.block l.lh.n 0 b i
  Found-i = found l.lh.block l.lh.n b

  block_after : (j : ℕ) → l'.lh.block j ≡ (if j == i then b else l.lh.block j)
  unfolding log_write slot
  block_after j = ground arith

  n_after : l'.lh.n ≡ (if i == l.lh.n then l.lh.n + 1 else l.lh.n)
  unfolding log_write slot
  n_after = ground arith

  dirty_after : f'.dirty ≡ true
  unfolding log_write
  dirty_after = ground arith

  -- The entries that were there stay.
  block_kept : (j : ℕ) → j < l.lh.n → l'.lh.block j ≡ l.lh.block j
  block_kept j p = ground (arith, block_after j, Found-i.hit)

  listed_kept : (c : ℕ) → listed l'.lh.block l.lh.n c ≡ listed l.lh.block l.lh.n c
  listed_kept c = listed-congr l'.lh.block l.lh.block l.lh.n c block_kept

  listed_after_miss :
      i ≡ l.lh.n
      → (c : ℕ) → listed l'.lh.block (suc l.lh.n) c ≡ ((b == c) || listed l.lh.block l.lh.n c)
  unfolding listed
  listed_after_miss m c = ground (arith, listed_kept c, block_after l.lh.n)

  -- After a successful log_write of a block the log lists what it listed before and that block, has
  -- grown by one exactly if the block was not listed, and the buffer is dirty.
  pub log_write-listed :
      (c : ℕ)
      → (listed l'.lh.block l'.lh.n c ≡ ((b == c) || listed l.lh.block l.lh.n c))
        × (l'.lh.n ≡ (if listed l.lh.block l.lh.n b then l.lh.n else l.lh.n + 1))
        × (f'.dirty ≡ true)
  log_write-listed c = elim (Bool-cases (i == l.lh.n)) [
    | inl m ↦
        let eq_n : i ≡ l.lh.n = ==_sound _ _ m in
        let grown : l'.lh.n ≡ suc l.lh.n = ground (arith, n_after) in
        (
          rw grown (listed_after_miss eq_n c),
          ground (arith, slot_not-listed l.lh.block l.lh.n b eq_n),
          dirty_after,
        )
    | inr m ↦
        let old : listed l.lh.block l.lh.n b ≡ true =
          slot-listed l.lh.block l.lh.n b (ground (arith, Found-i.high)) in
        let same : l'.lh.n ≡ l.lh.n = ground (arith, n_after) in
        (rw same (ground (arith, listed_kept c)), ground arith, dirty_after)
  ]

  -- A successful log_write keeps the entries of the log distinct.
  pub log_write-NoRepeats : NoRepeats l.lh.block l.lh.n → NoRepeats l'.lh.block l'.lh.n
  log_write-NoRepeats v j k p q =
      ground (arith, n_after, v j k, block_after j, block_after k, Found-i.hit, Found-i.first j)
