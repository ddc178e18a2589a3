-- ===== src/Inode/Disk.antt =====
-- `struct d_inode`: the 32 bytes of an inode in its block, low bytes first.
pub mod Stored
pub mod Restored
use eg_gs.Base.{
  ℕ, zero, suc, ◌+◌, ◌*◌, ◌/◌, ◌%◌, ◌^◌, ◌<◌, ◌≡◌, Ram, update, arith, ltb, ◌==◌, if◌then◌else◌,
}
use eg_gs.Kernel.{Inode}
use eg_gs.Super.Bitmap.{get_16, get_32}

unfoldable pub put_16 : Ram ℕ → ℕ → ℕ → Ram ℕ
put_16 m p v = update (update m p (v % 2 ^ 8)) (p + 1) (v / 2 ^ 8 % 2 ^ 8)

unfoldable pub put_32 : Ram ℕ → ℕ → ℕ → Ram ℕ
unfolding put_16
put_32 m p v = put_16 (put_16 m p v) (p + 2) (v / 2 ^ 16)

-- `n` zones from the index `i` on.
unfoldable pub put_zones : ℕ → Ram ℕ → ℕ → Ram ℕ → (i : ℕ) → Ram ℕ
unfolding put_16
put_zones zero m p zone i = m
put_zones (suc n) m p zone i = put_zones n (put_16 m (p + 2 * i) (zone i)) p zone (i + 1)

abbrev pub inodes_per_block : ℕ
inodes_per_block = 32

-- `*(struct d_inode *) inode = ...` from the bytes at `p`. There are nine zones.
unfoldable pub load_inode : Ram ℕ → ℕ → Inode → Inode
load_inode m p i = record i {
  i_mode = get_16 m p;
  i_uid = get_16 m (p + 2);
  i_size = get_32 m (p + 4);
  i_mtime = get_32 m (p + 8);
  i_gid = m (p + 12);
  i_nlinks = m (p + 13);
  i_zone = λ n. if ltb n 9 then get_16 m (p + 14 + 2 * n) else i.i_zone n;
}

-- `... = *(struct d_inode *) inode`, at `p`.
unfoldable pub store_inode : Ram ℕ → ℕ → Inode → Ram ℕ
unfolding put_16 put_32 put_zones
store_inode m p i =
    let m = put_16 m p i.i_mode in
    let m = put_16 m (p + 2) i.i_uid in
    let m = put_32 m (p + 4) i.i_size in
    let m = put_32 m (p + 8) i.i_mtime in
    let m = update m (p + 12) (i.i_gid % 2 ^ 8) in
    let m = update m (p + 13) (i.i_nlinks % 2 ^ 8) in put_zones 9 m (p + 14) i.i_zone 0
