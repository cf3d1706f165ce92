-- ===== src/Inode/Layout.antt =====
-- What `iupdate` writes to the disk is what `ilock` reads from it.
use operating_systems_cs.Base.{
  ℕ, ◌+◌, ◌-◌, ◌^◌, ◌≤◌, ◌<◌, ◌≡◌, ◌≢◌, refl, ◌∙◌, ◌⊎◌, inl, inr, true, ◌&&◌, arith, ltb, leb, ◌==◌,
  ==_refl, ==_ne, ==_sound, Bool-cases,
}
use operating_systems_cs.Fs.{Block, Disk, bread, Superblock}
use operating_systems_cs.Inode.{
  Inode, get16, put16, get32, put32, paste, iblock, dinode_at, store_dinode, load_dinode, iupdate,
  read_inode,
}

pub get16-put16 : (v : ℕ → ℕ) (p w : ℕ) → w < 2 ^ 16 → get16 (put16 v p w) p ≡ w
get16-put16 v p w h = ground arith

pub get32-put32 : (v : ℕ → ℕ) (p w : ℕ) → w < 2 ^ 32 → get32 (put32 v p w) p ≡ w
get32-put32 v p w h = ground arith

put16-other : (v : ℕ → ℕ) (p w i : ℕ) → (i < p) ⊎ (p + 2 ≤ i) → put16 v p w i ≡ v i
put16-other v p w i h = ground arith

pub put32-other : (v : ℕ → ℕ) (p w i : ℕ) → (i < p) ⊎ (p + 4 ≤ i) → put32 v p w i ≡ v i
put32-other v p w i h = ground arith

pub paste-in : (p n : ℕ) (src v : ℕ → ℕ) (i : ℕ) → i < n → paste p n src v (p + i) ≡ src i
paste-in p n src v i h =
    let inside : (leb p (p + i) && ltb (p + i) (p + n)) ≡ true = ground arith in
    let index : p + i - p ≡ i = omega arith in rw (inside, index) refl

paste_start : (n : ℕ) (src v : ℕ → ℕ) (i : ℕ) → i < n → paste 0 n src v i ≡ src i
paste_start n src v i h =
    let inside : (leb 0 i && ltb i (0 + n)) ≡ true = ground arith in
    let index : i - 0 ≡ i = omega arith in rw (inside, index) refl

pub paste-out : (p n : ℕ) (src v : ℕ → ℕ) (i : ℕ) → (i < p) ⊎ (p + n ≤ i) → paste p n src v i ≡ v i
paste-out p n src v i h = ground arith

-- The bytes before `addrs`.
abbrev head : Inode → ℕ → Block → Block
head ip p v =
    put32
      (put16 (put16 (put16 (put16 v p ip.type) (p + 2) ip.major) (p + 4) ip.minor) (p + 6) ip.nlink)
      (p + 8) ip.size

module _ (ip : Inode) (p : ℕ) (v : Block) where
  store-head : (i : ℕ) → i < p + 12 → store_dinode ip p v i ≡ head ip p v i
  unfolding store_dinode
  store-head i h = paste-out (p + 12) 52 ip.addrs (head ip p v) i (inl h)

  stored_type : ip.type < 2 ^ 16 → get16 (store_dinode ip p v) p ≡ ip.type
  stored_type h = rw (store-head p (omega arith), store-head (p + 1) (omega arith)) (ground arith)

  stored_major : ip.major < 2 ^ 16 → get16 (store_dinode ip p v) (p + 2) ≡ ip.major
  stored_major h =
      rw (store-head (p + 2) (omega arith), store-head (p + 2 + 1) (omega arith)) (ground arith)

  stored_minor : ip.minor < 2 ^ 16 → get16 (store_dinode ip p v) (p + 4) ≡ ip.minor
  stored_minor h =
      rw (store-head (p + 4) (omega arith), store-head (p + 4 + 1) (omega arith)) (ground arith)

  stored_nlink : ip.nlink < 2 ^ 16 → get16 (store_dinode ip p v) (p + 6) ≡ ip.nlink
  stored_nlink h =
      rw (store-head (p + 6) (omega arith), store-head (p + 6 + 1) (omega arith)) (ground arith)

  stored_size : ip.size < 2 ^ 32 → get32 (store_dinode ip p v) (p + 8) ≡ ip.size
  stored_size h =
      rw
        (
          store-head (p + 8) (omega arith),
          store-head (p + 8 + 1) (omega arith),
          store-head (p + 8 + 2) (omega arith),
          store-head (p + 8 + 3) (omega arith),
        )
        (ground arith)

  stored_addrs : (i : ℕ) → i < 52 → store_dinode ip p v (p + 12 + i) ≡ ip.addrs i
  unfolding store_dinode
  stored_addrs i h = paste-in (p + 12) 52 ip.addrs (head ip p v) i h

  stored_other : (i : ℕ) → (i < p) ⊎ (p + 64 ≤ i) → store_dinode ip p v i ≡ v i
  unfolding store_dinode
  stored_other i h = paste-out (p + 12) 52 ip.addrs (head ip p v) i (ground arith) ∙ ground arith

-- The fields fit in the places that they have on the disk.
pub record Fits (ip : Inode) : Type 0 where
  pub type : ip.type < 2 ^ 16
  pub major : ip.major < 2 ^ 16
  pub minor : ip.minor < 2 ^ 16
  pub nlink : ip.nlink < 2 ^ 16
  pub size : ip.size < 2 ^ 32

-- Two inodes agree on all that is kept on the disk.
pub record Agree (a b : Inode) : Type 0 where
  pub type : a.type ≡ b.type
  pub major : a.major ≡ b.major
  pub minor : a.minor ≡ b.minor
  pub nlink : a.nlink ≡ b.nlink
  pub size : a.size ≡ b.size
  pub addrs : (i : ℕ) → i < 52 → a.addrs i ≡ b.addrs i

load_dinode-store :
    (ip jp : Inode) (p : ℕ) (v : Block)
    → Fits ip
    → Agree (load_dinode (store_dinode ip p v) p jp) ip
unfolding load_dinode
load_dinode-store ip jp p v f = record {
  type = stored_type ip p v f.type;
  major = stored_major ip p v f.major;
  minor = stored_minor ip p v f.minor;
  nlink = stored_nlink ip p v f.nlink;
  size = stored_size ip p v f.size;
  addrs = λ i h.
      paste_start 52 (λ i. store_dinode ip p v (p + 12 + i)) jp.addrs i h ∙ stored_addrs ip p v i h;
}

load_dinode-congr :
    (v w : Block) (p : ℕ) (jp : Inode)
    → ((i : ℕ) → p ≤ i → i < p + 64 → v i ≡ w i)
    → Agree (load_dinode v p jp) (load_dinode w p jp)
unfolding load_dinode
load_dinode-congr v w p jp h = record {
  type = omega (arith, h p, h (p + 1));
  major = omega (arith, h (p + 2), h (p + 2 + 1));
  minor = omega (arith, h (p + 4), h (p + 4 + 1));
  nlink = omega (arith, h (p + 6), h (p + 6 + 1));
  size = omega (arith, h (p + 8), h (p + 8 + 1), h (p + 8 + 2), h (p + 8 + 3));
  addrs = λ i l. ground (arith, h (p + 12 + i), h (p + 12 + (i - 0)));
}

-- `I_VALID` is not kept on the disk.
Agree-valid : (a b : Inode) → Agree a b → Agree (record a { valid = true }) b
Agree-valid a b h = record {
  type = h.type;
  major = h.major;
  minor = h.minor;
  nlink = h.nlink;
  size = h.size;
  addrs = h.addrs;
}

Agree-both_valid :
    (a b : Inode) → Agree a b → Agree (record a { valid = true }) (record b { valid = true })
Agree-both_valid a b h = record {
  type = h.type;
  major = h.major;
  minor = h.minor;
  nlink = h.nlink;
  size = h.size;
  addrs = h.addrs;
}

pub iupdate-elsewhere :
    (sb : Superblock) (ip : Inode) (b : ℕ) (d : Disk)
    → b ≢ iblock sb ip.inum
    → (iupdate sb ip d).blocks b ≡ d.blocks b
unfolding iupdate
iupdate-elsewhere sb ip b d ne = rw (==_ne b (iblock sb ip.inum) ne) refl

module _ (sb : Superblock) (ip jp : Inode) (d : Disk) where
  written_number :
      Fits ip
      → Agree (load_dinode ((iupdate sb ip d).blocks (iblock sb ip.inum)) (dinode_at ip.inum) jp) ip
  unfolding iupdate
  written_number f =
      rw (==_refl (iblock sb ip.inum))
        (load_dinode-store ip jp (dinode_at ip.inum) (bread (iblock sb ip.inum) d) f)

  -- What iupdate writes of an inode whose fields fit in their places on the disk, ilock reads back
  -- into any entry with its number: type, major, minor, nlink, size and all 52 bytes of addrs.
  pub read_inode-iupdate :
      Fits ip → jp.inum ≡ ip.inum → Agree (read_inode sb jp (iupdate sb ip d)) ip
  unfolding read_inode
  read_inode-iupdate f same = Agree-valid _ ip (at_number jp.inum same)
    where
      at_number :
          (n : ℕ)
          → n ≡ ip.inum
          → Agree (load_dinode ((iupdate sb ip d).blocks (iblock sb n)) (dinode_at n) jp) ip
      at_number n e = rw e (written_number f)

  other_bytes :
      jp.inum ≢ ip.inum
      → (i : ℕ) → dinode_at jp.inum ≤ i
      → i < dinode_at jp.inum + 64
      → (iupdate sb ip d).blocks (iblock sb jp.inum) i ≡ d.blocks (iblock sb jp.inum) i
  unfolding iupdate
  other_bytes ne i lo hi = elim (Bool-cases (iblock sb jp.inum == iblock sb ip.inum)) [
    | inl block ↦
        let e : iblock sb jp.inum ≡ iblock sb ip.inum =
          ==_sound (iblock sb jp.inum) (iblock sb ip.inum) block in
        let apart : (i < dinode_at ip.inum) ⊎ (dinode_at ip.inum + 64 ≤ i) =
          places_apart ip.inum jp.inum i e ne lo hi in
        rw block
          (stored_other ip (dinode_at ip.inum) (bread (iblock sb ip.inum) d) i apart ∙ rw e refl)
    | inr away ↦ rw away refl
  ]
    where
      places_apart :
          (a b i : ℕ)
          → iblock sb b ≡ iblock sb a
          → b ≢ a
          → dinode_at b ≤ i
          → i < dinode_at b + 64
          → (i < dinode_at a) ⊎ (dinode_at a + 64 ≤ i)
      places_apart a b i e ne lo hi = omega arith

  -- iupdate of an inode changes nothing that ilock reads of an inode with another number, also one
  -- in the same block.
  pub read_inode-iupdate_other :
      jp.inum ≢ ip.inum → Agree (read_inode sb jp (iupdate sb ip d)) (read_inode sb jp d)
  unfolding read_inode
  read_inode-iupdate_other ne =
      let l : Agree
          (load_dinode ((iupdate sb ip d).blocks (iblock sb jp.inum)) (dinode_at jp.inum) jp)
          (load_dinode (d.blocks (iblock sb jp.inum)) (dinode_at jp.inum) jp) =
        load_dinode-congr ((iupdate sb ip d).blocks (iblock sb jp.inum))
          (d.blocks (iblock sb jp.inum)) (dinode_at jp.inum) jp (other_bytes ne) in
      Agree-both_valid _ _ l
