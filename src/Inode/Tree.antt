-- ===== src/Inode/Tree.antt =====
-- The blocks of an inode: seven direct ones, those named by the indirect block, and those named by
-- the blocks that the double indirect block names.
pub mod Located
use eg_gs.Base.{
  ℕ, zero, suc, ◌+◌, ◌-◌, ◌*◌, ◌/◌, ◌%◌, ◌^◌, Bool, true, false, not, ◌&&◌, ◌||◌, update, ltb, leb,
  ◌==◌, if◌then◌else◌, bit_and,
}
use eg_gs.Kernel.{Kernel, Ptr, null, Inode}
use eg_gs.Kernel.Device.{Device}
use eg_gs.Kernel.Result.{M, Void, ◌>>=◌, ◌>>◌, pure, skip, fail, spin, buffer, set_buffer}
use eg_gs.Buffer.{read_buff, put_buff}
use eg_gs.Super.Bitmap.{get_16}
use eg_gs.Inode.{inode_at, set_inode}
use eg_gs.Inode.Disk.{put_16}
use eg_gs.Zone.{create_block, delete_block, delete_indirecte_block, delete_double_indirecte_block}

-- `S_ISREG` or `S_ISDIR`.
abbrev pub has_blocks : ℕ → Bool
has_blocks mode = bit_and mode 0xF000 == 0x8000 || bit_and mode 0xF000 == 0x4000

module _ (d : Device) (fuel : ℕ) where
  -- `if (create && !inode->i_zone[n]) if ((inode->i_zone[n] = create_block(...))) i_dirt = 1;`
  unfoldable pub fill_zone : Ptr → (n : ℕ) → (create : Bool) → M Void
  fill_zone p n create = do
    i ← inode_at p
    if create && i.i_zone n == 0
        then (do
          block ← create_block d fuel i.i_dev
          set_inode p (λ i. record i { i_zone = update i.i_zone n (block % 2 ^ 16) })
          if block % 2 ^ 16 == 0 then skip else set_inode p (λ i. record i { i_dirt = 1 }))
        else skip

  -- The entry `n` of the block `table` of the inode's device, made if it is 0 and `create` says so;
  -- 0 if the block cannot be read. The table keeps 16 bits of the number that is returned.
  unfoldable pub entry_of : Ptr → (table n : ℕ) → (create : Bool) → M ℕ
  unfolding put_16
  entry_of p table n create = do
    i ← inode_at p
    bh ← read_buff d fuel i.i_dev table
    b ← buffer bh
    if bh == null
        then pure 0
        else if create && get_16 b.b_data (2 * n) == 0
        then (do
          block ← create_block d fuel i.i_dev
          if block == 0
              then skip
              else set_buffer bh
                  (λ b. record b { b_data = put_16 b.b_data (2 * n) block; b_dirt = 1 })
          put_buff d fuel bh
          pure block)
        else put_buff d fuel bh >> pure (get_16 b.b_data (2 * n))

  -- `block` is not negative here.
  unfoldable pub locate_by_inode : Ptr → (block : ℕ) → (create : Bool) → M ℕ
  unfolding fill_zone entry_of
  locate_by_inode p block create =
      if leb (7 + 512 + 512 * 512) block
      then fail "locate_in_inode: block>big"
      else if ltb block 7
      then (do fill_zone p block create; i ← inode_at p; pure (i.i_zone block))
      else if ltb (block - 7) 512
      then (do
        fill_zone p 7 create
        i ← inode_at p
        if i.i_zone 7 == 0 then pure 0 else entry_of p (i.i_zone 7) (block - 7) create)
      else (do
        fill_zone p 8 create
        i ← inode_at p
        table ←
            if i.i_zone 8 == 0
            then pure 0
            else entry_of p (i.i_zone 8) ((block - 7 - 512) / 2 ^ 9) create
        if table == 0 then pure 0 else entry_of p table (bit_and (block - 7 - 512) 511) create)

  unfoldable pub delete_direct : ℕ → Ptr → (n : ℕ) → M Void
  delete_direct zero p n = skip
  delete_direct (suc left) p n =
      let rest = delete_direct left p (n + 1) in
      do
        i ← inode_at p
        if i.i_zone n == 0
            then skip
            else delete_block d fuel i.i_dev (i.i_zone n)
              >> set_inode p (λ i. record i { i_zone = update i.i_zone n 0 })
        rest

  unfoldable pub truncate : Ptr → M Void
  unfolding delete_direct
  truncate p = do
    i ← inode_at p
    if not (has_blocks i.i_mode) then skip else (do
      delete_direct 7 p 0
      i ← inode_at p
      delete_indirecte_block d fuel i.i_dev (i.i_zone 7)
      i ← inode_at p
      delete_double_indirecte_block d fuel i.i_dev (i.i_zone 8)
      set_inode p
          (λ i. record i { i_zone = update (update i.i_zone 8 0) 7 0; i_size = 0; i_dirt = 1 }))
