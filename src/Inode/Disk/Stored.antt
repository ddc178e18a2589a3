-- ===== src/Inode/Disk/Stored.antt =====
-- An inode that is written to its block and read again.
use eg_gs.Base.{
  ℕ, zero, suc, ◌+◌, ◌*◌, ◌%◌, ◌^◌, ◌≤◌, ◌<◌, ◌≡◌, ◌⊎◌, refl, ◌∙◌, inl, inr, lt→ltb, Bool-cases,
  subst, Ram, update, arith, ◌==◌,
}
use eg_gs.Kernel.{Inode}
use eg_gs.Super.Bitmap.{get_16, get_32}
use eg_gs.Inode.Disk.{put_16, put_32, put_zones, load_inode, store_inode}

-- The fields have the widths of `struct d_inode`.
pub record Fits (i : Inode) : Type 0 where
  pub mode : i.i_mode < 2 ^ 16
  pub uid : i.i_uid < 2 ^ 16
  pub size : i.i_size < 2 ^ 32
  pub mtime : i.i_mtime < 2 ^ 32
  pub gid : i.i_gid < 2 ^ 8
  pub nlinks : i.i_nlinks < 2 ^ 8
  pub zone : (n : ℕ) → i.i_zone n < 2 ^ 16

-- The part of an inode that is on the disk is the same.
pub record SameDisk (i j : Inode) : Type 0 where
  pub mode : i.i_mode ≡ j.i_mode
  pub uid : i.i_uid ≡ j.i_uid
  pub size : i.i_size ≡ j.i_size
  pub mtime : i.i_mtime ≡ j.i_mtime
  pub gid : i.i_gid ≡ j.i_gid
  pub nlinks : i.i_nlinks ≡ j.i_nlinks
  pub zone : (n : ℕ) → n < 9 → i.i_zone n ≡ j.i_zone n

get_16-put_16 : (m : Ram ℕ) (p v : ℕ) → v < 2 ^ 16 → get_16 (put_16 m p v) p ≡ v
unfolding get_16 put_16
get_16-put_16 m p v h = ground arith

get_32-put_32 : (m : Ram ℕ) (p v : ℕ) → v < 2 ^ 32 → get_32 (put_32 m p v) p ≡ v
unfolding get_32 put_32 get_16 put_16
get_32-put_32 m p v h = ground arith

-- A byte outside the written ones.
put_16_other : (m : Ram ℕ) (p v q : ℕ) → (q < p) ⊎ (p + 2 ≤ q) → put_16 m p v q ≡ m q
unfolding put_16
put_16_other m p v q h = ground arith

put_32_other : (m : Ram ℕ) (p v q : ℕ) → (q < p) ⊎ (p + 4 ≤ q) → put_32 m p v q ≡ m q
unfolding put_32 put_16
put_32_other m p v q h = ground arith

put_zones_other :
    (n : ℕ) (m : Ram ℕ) (p : ℕ) (zone : Ram ℕ) (i q : ℕ)
    → (q < p + 2 * i) ⊎ (p + 2 * (i + n) ≤ q)
    → put_zones n m p zone i q ≡ m q
unfolding put_zones
put_zones_other zero m p zone i q h = refl
put_zones_other (suc n) m p zone i q h =
    put_zones_other n (put_16 m (p + 2 * i) (zone i)) p zone (i + 1) q (ground arith)
    ∙ put_16_other m (p + 2 * i) (zone i) q (ground arith)

get_16_same :
    (m m' : Ram ℕ) (p : ℕ) → m' p ≡ m p → m' (p + 1) ≡ m (p + 1) → get_16 m' p ≡ get_16 m p
unfolding get_16
get_16_same m m' p a b = ground arith

get_32_same :
    (m m' : Ram ℕ) (p : ℕ)
    → m' p ≡ m p
    → m' (p + 1) ≡ m (p + 1)
    → m' (p + 2) ≡ m (p + 2)
    → m' (p + 2 + 1) ≡ m (p + 2 + 1)
    → get_32 m' p ≡ get_32 m p
unfolding get_32 get_16
get_32_same m m' p a b c d = rw (a, b, c, d)

get_16-put_zones :
    (n : ℕ) (m : Ram ℕ) (p : ℕ) (zone : Ram ℕ) (i j : ℕ)
    → ((n : ℕ) → zone n < 2 ^ 16)
    → i ≤ j
    → j < i + n
    → get_16 (put_zones n m p zone i) (p + 2 * j) ≡ zone j
unfolding put_zones
get_16-put_zones zero m p zone i j h a b = absurd (omega arith)
get_16-put_zones (suc n) m p zone i j h a b = elim (Bool-cases (i == j)) [
  | inl e ↦
      let here : i ≡ j = ground arith in
      let rest = put_zones n (put_16 m (p + 2 * i) (zone i)) p zone (i + 1) in
      let low =
        put_zones_other n (put_16 m (p + 2 * i) (zone i)) p zone (i + 1) (p + 2 * i)
          (inl (omega arith)) in
      let high =
        put_zones_other n (put_16 m (p + 2 * i) (zone i)) p zone (i + 1) (p + 2 * i + 1)
          (inl (omega arith)) in
      subst (λ x. get_16 rest (p + 2 * x) ≡ zone x) here
        (get_16_same (put_16 m (p + 2 * i) (zone i)) rest (p + 2 * i) low high
          ∙ get_16-put_16 m (p + 2 * i) (zone i) (h i))
  | inr e ↦
      get_16-put_zones n (put_16 m (p + 2 * i) (zone i)) p zone (i + 1) j h (ground arith)
        (omega arith)
]

-- The bytes before the zones.
abbrev head_bytes : Ram ℕ → ℕ → Inode → Ram ℕ
head_bytes m p i =
    update
      (update
        (put_32 (put_32 (put_16 (put_16 m p i.i_mode) (p + 2) i.i_uid) (p + 4) i.i_size) (p + 8)
          i.i_mtime)
        (p + 12) (i.i_gid % 2 ^ 8))
      (p + 13) (i.i_nlinks % 2 ^ 8)

store_inode_head :
    (m : Ram ℕ) (p : ℕ) (i : Inode) (q : ℕ)
    → (q < p + 14) ⊎ (p + 32 ≤ q)
    → store_inode m p i q ≡ head_bytes m p i q
unfolding store_inode
store_inode_head m p i q h =
    put_zones_other 9 (head_bytes m p i) (p + 14) i.i_zone 0 q (ground arith)

head_16 :
    (m : Ram ℕ) (p : ℕ) (i : Inode) (q : ℕ)
    → q + 2 ≤ p + 14
    → get_16 (store_inode m p i) q ≡ get_16 (head_bytes m p i) q
head_16 m p i q h =
    get_16_same (head_bytes m p i) (store_inode m p i) q
      (store_inode_head m p i q (inl (omega arith)))
      (store_inode_head m p i (q + 1) (inl (omega arith)))

head_32 :
    (m : Ram ℕ) (p : ℕ) (i : Inode) (q : ℕ)
    → q + 4 ≤ p + 14
    → get_32 (store_inode m p i) q ≡ get_32 (head_bytes m p i) q
unfolding get_32
head_32 m p i q h = rw (head_16 m p i q (omega arith), head_16 m p i (q + 2) (omega arith))

module _ (m : Ram ℕ) (p : ℕ) (i : Inode) (f : Fits i) where
  head_mode : get_16 (head_bytes m p i) p ≡ i.i_mode
  unfolding get_16 put_16 put_32
  head_mode = ground (arith, f.mode)

  head_uid : get_16 (head_bytes m p i) (p + 2) ≡ i.i_uid
  unfolding get_16 put_16 put_32
  head_uid = ground (arith, f.uid)

  head_size : get_32 (head_bytes m p i) (p + 4) ≡ i.i_size
  head_size =
      let before = put_16 (put_16 m p i.i_mode) (p + 2) i.i_uid in
      let now = put_32 before (p + 4) i.i_size in
      let same : (q : ℕ) → q < p + 8 → head_bytes m p i q ≡ now q =
        λ q h. ground (arith, put_32_other now (p + 8) i.i_mtime q (inl h)) in
      get_32_same now (head_bytes m p i) (p + 4) (same (p + 4) (omega arith))
        (same (p + 4 + 1) (omega arith)) (same (p + 4 + 2) (omega arith))
        (same (p + 4 + 2 + 1) (omega arith))
      ∙ get_32-put_32 before (p + 4) i.i_size f.size

  head_mtime : get_32 (head_bytes m p i) (p + 8) ≡ i.i_mtime
  unfolding get_32 get_16 put_16 put_32
  head_mtime = ground (arith, f.mtime)

  head_outside : (q : ℕ) → (q < p) ⊎ (p + 32 ≤ q) → head_bytes m p i q ≡ m q
  head_outside q h =
      let m1 = put_16 m p i.i_mode in
      let m2 = put_16 m1 (p + 2) i.i_uid in
      let m3 = put_32 m2 (p + 4) i.i_size in
      ground (
        arith,
        put_16_other m p i.i_mode q,
        put_16_other m1 (p + 2) i.i_uid q,
        put_32_other m2 (p + 4) i.i_size q,
        put_32_other m3 (p + 8) i.i_mtime q,
      )

  stored_zone : (n : ℕ) → n < 9 → get_16 (store_inode m p i) (p + 14 + 2 * n) ≡ i.i_zone n
  unfolding store_inode
  stored_zone n h =
      get_16-put_zones 9 (head_bytes m p i) (p + 14) i.i_zone 0 n f.zone (omega arith) (omega arith)

-- `store_inode` of an inode whose fields have the widths of the disk's record, followed by
-- `load_inode` from the same place into any inode, gives back every field that is on the disk, and
-- a byte outside the 32 of the inode has not changed.
pub load_inode-store_inode :
    (m : Ram ℕ) (p : ℕ) (i old : Inode) (q : ℕ)
    → Fits i
    → (q < p) ⊎ (p + 32 ≤ q)
    → SameDisk (load_inode (store_inode m p i) p old) i × (store_inode m p i q ≡ m q)
unfolding load_inode
load_inode-store_inode m p i old q f outside = (
  record {
    mode = head_16 m p i p (omega arith) ∙ head_mode m p i f;
    uid = head_16 m p i (p + 2) (omega arith) ∙ head_uid m p i f;
    size = head_32 m p i (p + 4) (omega arith) ∙ head_size m p i f;
    mtime = head_32 m p i (p + 8) (omega arith) ∙ head_mtime m p i f;
    gid = store_inode_head m p i (p + 12) (inl (omega arith)) ∙ ground (arith, f.gid);
    nlinks = store_inode_head m p i (p + 13) (inl (omega arith)) ∙ ground (arith, f.nlinks);
    zone = λ n h. rw (lt→ltb n 9 h) (stored_zone m p i f n h);
  },
  store_inode_head m p i q (ground arith) ∙ head_outside m p i f q outside,
)
