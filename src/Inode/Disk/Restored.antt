-- ===== src/Inode/Disk/Restored.antt =====
-- An inode that is read from its block and written there again.
use eg_gs.Base.{
  ℕ, zero, suc, ◌+◌, ◌*◌, ◌%◌, ◌^◌, ◌<◌, ◌≡◌, refl, Ram, update, arith, lt→ltb, fun_ext,
}
use eg_gs.Kernel.{Inode}
use eg_gs.Super.Bitmap.{get_16, get_32}
use eg_gs.Inode.Disk.{put_16, put_32, put_zones, load_inode, store_inode}

-- Every cell is a byte.
abbrev pub AreBytes : Ram ℕ → Type 0
AreBytes m = (q : ℕ) → m q < 2 ^ 8

module _ (m : Ram ℕ) (bytes : AreBytes m) where
  update_same : (p : ℕ) → update m p (m p % 2 ^ 8) ≡ m
  update_same p = fun_ext (λ q. ground (arith, bytes p))

  put_16-get_16 : (p : ℕ) → put_16 m p (get_16 m p) ≡ m
  unfolding put_16 get_16
  put_16-get_16 p = fun_ext (λ q. ground (arith, bytes p, bytes (p + 1)))

  put_32-get_32 : (p : ℕ) → put_32 m p (get_32 m p) ≡ m
  unfolding put_32 get_32 put_16 get_16
  put_32-get_32 p =
      fun_ext (λ q. ground (arith, bytes p, bytes (p + 1), bytes (p + 2), bytes (p + 3)))

  -- Zones that are written over themselves, from the index `i` on.
  put_zones_same :
      (n p : ℕ) (zone : Ram ℕ) (i : ℕ)
      → ((j : ℕ) → j < i + n → zone j ≡ get_16 m (p + 2 * j))
      → put_zones n m p zone i ≡ m
  unfolding put_zones
  put_zones_same zero p zone i h = refl
  put_zones_same (suc n) p zone i h =
      let first : put_16 m (p + 2 * i) (zone i) ≡ m =
        rw (h i (omega arith)) (put_16-get_16 (p + 2 * i)) in
      rw first (put_zones_same n p zone (i + 1) (λ j l. h j (omega arith)))

-- In a memory of bytes: `load_inode` of the 32 bytes of an inode, into any inode, followed by
-- `store_inode` to the same place gives back the memory as it was, in every byte.
pub store_inode-load_inode :
    (m : Ram ℕ) (p : ℕ) (i : Inode) → AreBytes m → store_inode m p (load_inode m p i) ≡ m
unfolding load_inode store_inode
store_inode-load_inode m p i b =
    rw
      (
        put_16-get_16 m b p,
        put_16-get_16 m b (p + 2),
        put_32-get_32 m b (p + 4),
        put_32-get_32 m b (p + 8),
        update_same m b (p + 12),
        update_same m b (p + 13),
      )
      (put_zones_same m b 9 (p + 14) ((load_inode m p i).i_zone) 0 (λ j h. rw (lt→ltb j 9 h)))
