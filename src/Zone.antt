-- ===== src/Zone.antt =====
-- fs/zone.c: data blocks of a device, taken and given back.
use eg_gs.Base.{ℕ, zero, suc, ◌+◌, ◌*◌, not, ◌==◌, if◌then◌else◌, memset}
use eg_gs.Kernel.{Ptr, null}
use eg_gs.Kernel.Device.{Device}
use eg_gs.Kernel.Result.{M, Void, ◌>>=◌, ◌>>◌, pure, skip, fail, buffer, set_buffer}
use eg_gs.Buffer.{get_buff, read_buff, put_buff, invalidate_buff}
use eg_gs.Super.{add_zone_bitmap, free_zone_bitmap}
use eg_gs.Super.Bitmap.{get_16}

abbrev pub block_size : ℕ
block_size = 1024

-- The zones that an indirect block names.
abbrev pub zones_per_block : ℕ
zones_per_block = 512

module _ (d : Device) (fuel : ℕ) where
  unfoldable pub delete_block : (dev block : ℕ) → M Void
  delete_block dev block = invalidate_buff d fuel dev block >> free_zone_bitmap d fuel dev block

  -- `clear_block` is `memset` over the block. A 0 of `add_zone_bitmap` is not tested for.
  unfoldable pub create_block : (dev : ℕ) → M ℕ
  create_block dev = do
    block ← add_zone_bitmap d fuel dev
    bh ← get_buff d fuel dev block
    b ← buffer bh
    if bh == null
        then fail "new_block: cannot get block"
        else if not (b.b_count == 1)
        then fail "new block: count is != 1"
        else (do
          set_buffer bh (λ b. record b {
            b_data = memset b.b_data 0 0 block_size;
            b_uptodate = 1;
            b_dirt = 1;
          })
          put_buff d fuel bh
          pure block)

  -- The loop over the zones that the block in `bh` names, from `i` on with `n` left.
  unfoldable pub delete_named : (each : ℕ → M Void) → ℕ → Ptr → (i : ℕ) → M Void
  delete_named each zero bh i = skip
  delete_named each (suc n) bh i =
      let rest = delete_named each n bh (i + 1) in
      do
        b ← buffer bh
        if get_16 b.b_data (2 * i) == 0 then skip else each (get_16 b.b_data (2 * i))
        rest

  -- What the two functions below share: the zones named by a block, then the block itself.
  unfoldable pub delete_with : (each : ℕ → M Void) → (dev block : ℕ) → M Void
  unfolding delete_named delete_block
  delete_with each dev block = if block == 0 then skip else (do
    bh ← read_buff d fuel dev block
    if bh == null then skip else delete_named each zones_per_block bh 0 >> put_buff d fuel bh
    delete_block dev block)

  unfoldable pub delete_indirecte_block : (dev block : ℕ) → M Void
  unfolding delete_with
  delete_indirecte_block dev block = delete_with (delete_block dev) dev block

  unfoldable pub delete_double_indirecte_block : (dev block : ℕ) → M Void
  unfolding delete_with delete_indirecte_block
  delete_double_indirecte_block dev block = delete_with (delete_indirecte_block dev) dev block
