-- ===== src/Inode/Sync.antt =====
-- Inodes and their blocks on the disk, and the choice of an entry of the table for a new inode.
use eg_gs.Base.{
  ℕ, zero, suc, ◌+◌, ◌-◌, ◌*◌, ◌/◌, ◌%◌, ◌^◌, Bool, true, false, not, ◌&&◌, ◌||◌, ◌==◌,
  if◌then◌else◌,
}
use eg_gs.Kernel.{Ptr, null, Inode, SuperBlock}
use eg_gs.Kernel.Device.{Device}
use eg_gs.Kernel.Result.{
  M, Void, ◌>>=◌, ◌>>◌, pure, skip, fail, spin, read, modify, buffer, set_buffer,
}
use eg_gs.Buffer.{read_buff, put_buff}
use eg_gs.Super.{super_block, find_super}
use eg_gs.Inode.{
  inode_at, set_inode, lock_inode, unlock_inode, wait_on_inode, choose_inode, find_inode, no_inode,
  nr_inode,
}
use eg_gs.Inode.Disk.{load_inode, store_inode, inodes_per_block}

-- `i_num - 1` as an `unsigned int`, and the block that holds the inode.
abbrev pub slot_of : Inode → ℕ
slot_of i = (i.i_num + 2 ^ 32 - 1) % 2 ^ 32

abbrev pub block_of : SuperBlock → Inode → ℕ
block_of s i = 2 + s.s_imap_blocks + s.s_zmap_blocks + slot_of i / inodes_per_block

module _ (d : Device) (fuel : ℕ) where
  unfoldable pub read_inode_from_buff : Ptr → M Void
  unfolding load_inode
  read_inode_from_buff p = do
    lock_inode p
    i ← inode_at p
    sb ← find_super d fuel i.i_dev
    s ← super_block sb
    if sb == null then fail "trying to read inode without dev" else (do
      bh ← read_buff d fuel i.i_dev (block_of s i)
      b ← buffer bh
      if bh == null then fail "unable to read i-node block" else (do
        set_inode p (load_inode b.b_data (32 * (slot_of i % inodes_per_block)))
        put_buff d fuel bh
        unlock_inode p))

  unfoldable pub sync_inode_to_buff : Ptr → M Void
  unfolding store_inode
  sync_inode_to_buff p = do
    lock_inode p
    i ← inode_at p
    if i.i_dirt == 0 || i.i_dev == 0 then unlock_inode p else (do
      sb ← find_super d fuel i.i_dev
      s ← super_block sb
      if sb == null then fail "trying to write inode without device" else (do
        bh ← read_buff d fuel i.i_dev (block_of s i)
        i ← inode_at p
        if bh == null then fail "unable to read i-node block" else (do
          set_buffer bh (λ b. record b {
            b_data = store_inode b.b_data (32 * (slot_of i % inodes_per_block)) i;
            b_dirt = 1;
          })
          set_inode p (λ i. record i { i_dirt = 0 })
          put_buff d fuel bh
          unlock_inode p)))

  unfoldable pub sync_inodes_from : ℕ → Ptr → M Void
  sync_inodes_from zero p = skip
  sync_inodes_from (suc n) p =
      let rest = sync_inodes_from n (p + 1) in
      do
        wait_on_inode d fuel p
        i ← inode_at p
        if not (i.i_dirt == 0) && i.i_pipe == 0 then sync_inode_to_buff p else skip
        rest

  unfoldable pub sync_all_inodes_to_buff : M Void
  unfolding sync_inodes_from
  sync_all_inodes_to_buff = sync_inodes_from nr_inode 1

  -- `while (inode->i_dirt)`: false if the inode was taken by someone else meanwhile.
  unfoldable pub sync_rounds : ℕ → Ptr → M Bool
  sync_rounds zero p = spin
  sync_rounds (suc n) p =
      let again = sync_rounds n p in
      let write_out : M Bool = do
        wait_on_inode d fuel p
        sync_inode_to_buff p
        i ← inode_at p
        if i.i_count == 0 then again else pure false
      in do i ← inode_at p; if i.i_dirt == 0 then pure true else write_out

  -- `find_inode` may change `dev` and `nr`, but then it has found an inode, and they are not used.
  unfoldable pub new_inode : (dev nr : ℕ) → M Ptr
  unfolding choose_inode sync_rounds
  new_inode dev nr = do
    table ← read (λ k. k.inode_list)
    last ← read (λ k. k.last_inode)
    let chosen = choose_inode nr_inode table last null
    let p = chosen.1
    modify (λ k. record k { last_inode = chosen.0 })
    if p == null then fail "No free inodes in mem" else (do
      clean ← sync_rounds fuel p
      there ←
          if clean then find_inode fuel dev nr else pure (record { inode = p; dev = dev; nr = nr })
      if there.inode == null
          then (do
            set_inode p (λ _. record no_inode {
              i_count = 1;
              i_dev = there.dev % 2 ^ 16;
              i_num = there.nr % 2 ^ 16;
            })
            pure p)
          else pure null)
