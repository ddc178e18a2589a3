-- ===== src/Inode.antt =====
-- fs/inode.c: the table of the inodes in memory. A loop that waits, or that starts again when the
-- table has changed, runs `fuel` rounds at most.
pub mod Disk
pub mod Choice
pub mod Life
pub mod Lookup
pub mod Name
pub mod Sync
pub mod Tree
use eg_gs.Base.{
  ℕ, zero, suc, ◌+◌, ◌*◌, Bool, true, false, not, ◌&&◌, ◌||◌, Ram, update, ltb, leb, ◌==◌,
  if◌then◌else◌,
}
use eg_gs.Kernel.{Kernel, Ptr, null, Inode, SuperBlock}
use eg_gs.Kernel.Device.{Device}
use eg_gs.Kernel.Result.{M, Void, ◌>>=◌, ◌>>◌, pure, skip, fail, spin, read, modify, set_interrupts}
use eg_gs.Super.{super_block, nr_super}

abbrev pub nr_inode : ℕ
nr_inode = 32

abbrev pub root_ino : ℕ
root_ino = 1

abbrev pub no_inode : Inode
no_inode = record {
  i_mode = 0;
  i_uid = 0;
  i_size = 0;
  i_mtime = 0;
  i_gid = 0;
  i_nlinks = 0;
  i_zone = λ _. 0;
  i_atime = 0;
  i_ctime = 0;
  i_dev = 0;
  i_num = 0;
  i_count = 0;
  i_lock = 0;
  i_dirt = 0;
  i_pipe = 0;
  i_mount = 0;
  i_seek = 0;
  i_update = 0;
}

abbrev pub inode_at : Ptr → M Inode
inode_at p = read λ k. k.inode_list p

abbrev pub set_inode : Ptr → (Inode → Inode) → M Void
set_inode p f = modify λ k. record k { inode_list = update k.inode_list p (f (k.inode_list p)) }

-- Like `lock_super`, this does not take a free lock, and never ends on a taken one.
unfoldable pub lock_inode : Ptr → M Void
lock_inode p = do
  set_interrupts false
  i ← inode_at p
  if i.i_lock == 0 then skip else spin
  set_interrupts true

unfoldable pub unlock_inode : Ptr → M Void
unlock_inode p = set_inode p (λ i. record i { i_lock = 0 })

-- `BADNESS` of an inode.
abbrev pub inode_badness : Inode → ℕ
inode_badness i = i.i_dirt * 2 + i.i_lock

-- The loop of `new_inode` over the table with `n` steps left: `last_inode` after it, and an unused
-- inode that is clean and unlocked, or the first of the least bad ones, or `null`.
unfoldable pub choose_inode : ℕ → Ram Inode → (last best : Ptr) → Ptr × Ptr
choose_inode zero table last best = (last, best)
choose_inode (suc n) table last best =
    let next = if leb nr_inode last then 1 else last + 1 in
    let i = table next in
    let better =
      i.i_count == 0 && (best == null || ltb (inode_badness i) (inode_badness (table best))) in
    let best' = if better then next else best in
    let rest = choose_inode n table next best' in
    if better && inode_badness i == 0 then (next, next) else rest

-- What `find_inode` returns: the inode, and the device and number that it goes by, which differ
-- from those asked for below a mount.
pub record Place : Type 0 where
  pub inode : Ptr
  pub dev : ℕ
  pub nr : ℕ

-- The first of `n` super blocks from `s` on that is mounted on the inode `p`, or `null`.
unfoldable pub mounted_on : ℕ → Ram SuperBlock → Ptr → Ptr → Ptr
mounted_on zero table p s = null
mounted_on (suc n) table p s =
    let rest = mounted_on n table p (s + 1) in if (table s).s_imount == p then s else rest

-- The loop of `find_inode` at the inode `p`.
unfoldable pub find_inode_from : ℕ → (dev nr : ℕ) → Ptr → M Place
unfolding mounted_on
find_inode_from zero dev nr p = spin
find_inode_from (suc n) dev nr p =
    let next = find_inode_from n dev nr (p + 1) in
    let below : ℕ → M Place = λ dev. find_inode_from n dev root_ino 1 in
    do
      i ← inode_at p
      s ← read (λ k. mounted_on nr_super k.super_block_list p 1)
      sb ← super_block s
      if ltb nr_inode p
          then pure (record { inode = null; dev = dev; nr = nr })
          else if not (i.i_dev == dev && i.i_num == nr)
          then next
          else if i.i_mount == 0 || s == null
          then pure (record { inode = p; dev = dev; nr = nr })
          else below sb.s_dev

module _ (fuel : ℕ) where
  unfoldable pub find_inode : (dev nr : ℕ) → M Place
  unfolding find_inode_from
  find_inode dev nr =
      if dev == 0 then fail "find inode with dev==0" else find_inode_from fuel dev nr 1

module _ (d : Device) (fuel : ℕ) where
  unfoldable pub wait_inode_rounds : ℕ → Ptr → M Void
  wait_inode_rounds zero p = spin
  wait_inode_rounds (suc n) p =
      let again = wait_inode_rounds n p in
      do i ← inode_at p; if i.i_lock == 0 then skip else set_interrupts true >> d.interrupt >> again

  unfoldable pub wait_on_inode : Ptr → M Void
  unfolding wait_inode_rounds
  wait_on_inode p = set_interrupts false >> wait_inode_rounds fuel p
