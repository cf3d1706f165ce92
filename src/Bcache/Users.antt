-- ===== src/Bcache/Users.antt =====
-- bio.c: which processes use which buffers. Each `bget` that returned or sleeps has a reference to a
-- buffer, which `refcnt` counts, until its `brelse`; one whose `acquiresleep` is over holds the lock.
use operating_systems_cs.Base.{
  ℕ, suc, ◌+◌, ◌≤◌, ◌≡◌, ◌≢◌, refl, sym, ap, ◌∙◌, Bool, true, false, ◌&&◌, List, [], ◌∷◌, arith,
  ◌==◌, ==_refl, ==_ne, if◌then◌else◌,
}
use operating_systems_cs.Base.Lists.{length}
use operating_systems_cs.Bcache.{Buf, is_block}
use operating_systems_cs.Bcache.Changes.{AllOf, Unique, Changed, here, there, AllOf-old}

-- A process that asked for `block` and waits for `buffer`, or holds it.
pub record User : Type 0 where
  pub buffer : ℕ
  pub block : ℕ
  pub holding : Bool

abbrev pub waiter : (buffer block : ℕ) → User
waiter buffer block = record { buffer = buffer; block = block; holding = false }

abbrev pub holder : (buffer block : ℕ) → User
holder buffer block = record { buffer = buffer; block = block; holding = true }

abbrev pub bit : Bool → ℕ
bit b = if b then 1 else 0

-- The users of buffer `i`, and those that hold it.
unfoldable pub users : ℕ → List User → ℕ
users i [] = 0
users i (u ∷ us) = bit (u.buffer == i) + users i us

unfoldable pub holders : ℕ → List User → ℕ
holders i [] = 0
holders i (u ∷ us) = bit ((u.buffer == i) && u.holding) + holders i us

-- Where `u` uses `b`, the buffer has the block of `u`, and is valid if `u` holds it.
abbrev pub Suits : Buf → User → Type 0
Suits b u = u.buffer ≡ b.id → (is_block 1 u.block b ≡ true) × (u.holding ≡ true → b.valid ≡ true)

unfoldable pub AllSuit : Buf → List User → Type 0
AllSuit b [] = Unit
AllSuit b (u ∷ us) = Suits b u × AllSuit b us

-- `refcnt` counts the users, one of which holds the buffer exactly if it is locked.
pub record Serves (us : List User) (b : Buf) : Type 0 where
  pub counted : b.refcnt ≡ users b.id us
  pub locks : holders b.id us ≡ bit b.locked
  pub suits : AllSuit b us

-- `vs` is `us` without `u`.
pub data Without (u : User) : List User → List User → Type 0 where
  first : {us : List User} → Without u (u ∷ us) us
  later : {v : User} {us vs : List User} → Without u us vs → Without u (v ∷ us) (v ∷ vs)

pub users-Without :
    {u : User} {us vs : List User} (i : ℕ)
    → Without u us vs
    → users i us ≡ bit (u.buffer == i) + users i vs
unfolding users
users-Without i first = refl
users-Without i (later w) = omega (arith, users-Without i w)

pub holders-Without :
    {u : User} {us vs : List User} (i : ℕ)
    → Without u us vs
    → holders i us ≡ bit ((u.buffer == i) && u.holding) + holders i vs
unfolding holders
holders-Without i first = refl
holders-Without i (later w) = omega (arith, holders-Without i w)

pub length-Without : {u : User} {us vs : List User} → Without u us vs → length us ≡ suc (length vs)
length-Without first = refl
length-Without (later w) = ap suc (length-Without w)

pub AllSuit-Without :
    {u : User} {us vs : List User} (b : Buf)
    → Without u us vs
    → AllSuit b us
    → Suits b u × AllSuit b vs
unfolding AllSuit
AllSuit-Without b first (p, ps) = (p, ps)
AllSuit-Without b (later w) (p, ps) = let (q, qs) = AllSuit-Without b w ps in (q, (p, qs))

pub users-le-length : (i : ℕ) (us : List User) → users i us ≤ length us
unfolding users
users-le-length i [] = omega arith
users-le-length i (u ∷ us) = ground (arith, users-le-length i us)

-- Nobody uses the buffer.
pub AllSuit-unused : (b : Buf) (us : List User) → users b.id us ≡ 0 → AllSuit b us
unfolding users AllSuit
AllSuit-unused b [] h = tt
AllSuit-unused b (u ∷ us) h = (
  λ e.
      let test : (u.buffer == b.id) ≡ true = rw e (==_refl b.id) in
      absurd (omega (arith, ap bit test)),
  AllSuit-unused b us (omega arith),
)

-- A buffer with the same block, that is valid where the other was.
pub AllSuit-same :
    (b c : Buf) (us : List User)
    → c.id ≡ b.id
    → c.dev ≡ b.dev
    → c.blockno ≡ b.blockno
    → (b.valid ≡ true → c.valid ≡ true)
    → AllSuit b us
    → AllSuit c us
unfolding AllSuit
AllSuit-same b c [] id dev blockno valid h = tt
AllSuit-same b c (u ∷ us) id dev blockno valid (p, ps) = (
  λ e. let (block, v) = p (e ∙ id) in (rw (dev, blockno) block, λ holds. valid (v holds)),
  AllSuit-same b c us id dev blockno valid ps,
)

-- The buffers that `u` does not use serve as before when it comes or goes.
pub Serves-cons :
    (u : User) (us : List User) (x : Buf) → x.id ≢ u.buffer → Serves us x → Serves (u ∷ us) x
unfolding users holders AllSuit
Serves-cons u us x ne s =
    let test : (u.buffer == x.id) ≡ false = ==_ne u.buffer x.id (λ e. ne (sym e)) in
    record {
      counted = rw test (omega (arith, s.counted));
      locks = rw test (omega (arith, s.locks));
      suits = ((λ e. absurd (ne (sym e))), s.suits);
    }

pub Serves-drop :
    {u : User} {us vs : List User} (x : Buf)
    → Without u us vs
    → x.id ≢ u.buffer
    → Serves us x
    → Serves vs x
Serves-drop {u = u} x w ne s =
    let test : (u.buffer == x.id) ≡ false = ==_ne u.buffer x.id (λ e. ne (sym e)) in
    let used = rw test at (users-Without x.id w) in
    let held = rw test at (holders-Without x.id w) in
    record {
      counted = omega (arith, used, s.counted);
      locks = omega (arith, held, s.locks);
      suits = (AllSuit-Without x w s.suits).1;
    }

pub AllOf-apart :
    (P Q : Buf → Type 0) (i : ℕ) (bs : List Buf)
    → AllOf (λ x. x.id ≢ i) bs
    → ((x : Buf) → x.id ≢ i → P x → Q x)
    → AllOf P bs
    → AllOf Q bs
unfolding AllOf
AllOf-apart P Q i [] n other ps = tt
AllOf-apart P Q i (x ∷ bs) (n, ns) other (p, ps) = (other x n p, AllOf-apart P Q i bs ns other ps)

-- One buffer changes, and what is known of the others.
pub AllOf-Changed :
    (P Q : Buf → Type 0) {b c : Buf} {bs cs : List Buf}
    → Changed b c bs cs
    → Unique bs
    → ((x : Buf) → x.id ≢ b.id → P x → Q x)
    → Q c
    → AllOf P bs
    → AllOf Q cs
unfolding AllOf Unique
AllOf-Changed P Q {b = b} (here {bs = bs}) (n, u) other q (p, ps) =
    (q, AllOf-apart P Q b.id bs n other ps)
AllOf-Changed P Q (there {x = x} ch) (n, u) other q (p, ps) =
    (other x (λ e. AllOf-old (λ d. d.id ≢ x.id) ch n (sym e)) p, AllOf-Changed P Q ch u other q ps)
