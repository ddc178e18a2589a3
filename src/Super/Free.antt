-- ===== src/Super/Free.antt =====
-- Freeing in the two bitmaps of a mounted device, and allocation followed by it.
use eg_gs.Base.{
  ℕ, ◌+◌, ◌-◌, ◌*◌, ◌/◌, ◌%◌, ◌^◌, ◌≤◌, ◌<◌, ◌≡◌, ◌⊎◌, true, false, Ram, arith, ◌==◌, ltb, leb,
  ◌||◌, if◌then◌else◌,
}
use eg_gs.Kernel.{Kernel, Ptr, null, BufferHead}
use eg_gs.Kernel.Device.{Device}
use eg_gs.Kernel.Result.{panic, Returns, returns}
use eg_gs.Super.{free_inode_bitmap, free_zone_bitmap, nr_super}
use eg_gs.Super.Bitmap.{block_bits}
use eg_gs.Super.Find.{Mounted, waited, find_super-ok}
use eg_gs.Super.Search.{map_bit}
use eg_gs.Super.Take.{IsMap, map_bit-after_drop}

-- The bits of a map agree in two states.
abbrev pub SameBits : (bs bs' : Ram BufferHead) → Ram Ptr → ℕ → Type 0
SameBits bs bs' maps blocks =
    (n : ℕ) → n < blocks * block_bits → map_bit bs' maps n ≡ map_bit bs maps n

module _ (d : Device) (fuel : ℕ) {k : Kernel} {dev : ℕ} {sb : Ptr} (mounted : Mounted k dev sb)
    (enough : nr_super < fuel) where
  there : (sb == null) ≡ false
  there = ground (arith, mounted.low)

  -- On a mounted device that is not locked and whose inode map has all its blocks, no two the same,
  -- `free_inode_bitmap` returns for an inode number from 1 to `s_ninodes` that
  -- has a bit in the map, clears that bit and leaves the others.
  pub free_inode_bitmap-clear :
      (inode_num : ℕ)
      → IsMap (k.super_block_list sb).s_imap (k.super_block_list sb).s_imap_blocks
      → 1 ≤ inode_num
      → inode_num ≤ (k.super_block_list sb).s_ninodes
      → inode_num < (k.super_block_list sb).s_imap_blocks * block_bits
      → Returns
          (λ _ k'.
            (n : ℕ)
            → n < (k.super_block_list sb).s_imap_blocks * block_bits
            → map_bit k'.buffers (k.super_block_list sb).s_imap n
              ≡ (if n == inode_num then 0 else map_bit k.buffers (k.super_block_list sb).s_imap n))
          (free_inode_bitmap d fuel dev inode_num k)
  unfolding free_inode_bitmap
  free_inode_bitmap-clear num is low high inside =
      let s = k.super_block_list sb in
      let valid : (ltb num 1 || ltb s.s_ninodes num) ≡ false = ground arith in
      let present : (s.s_imap (num / 2 ^ 13) == null) ≡ false =
        ground (arith, is.present (num / 2 ^ 13) (omega arith)) in
      rw (find_super-ok d fuel mounted enough, there, valid, present)
        (returns λ n hn. ground (
          arith,
          map_bit-after_drop (waited k) s.s_imap s.s_imap_blocks (num / block_bits)
              (num % block_bits) is (omega arith) (omega arith) n hn,
        ))

  -- On a mounted device that is not locked and whose zone map has all its blocks, no two the same,
  -- `free_zone_bitmap` returns for a block below 2 ^ 31 of the data zone that has
  -- a bit in the map, clears the bit that stands for it and leaves the others.
  pub free_zone_bitmap-clear :
      (block : ℕ)
      → IsMap (k.super_block_list sb).s_zmap (k.super_block_list sb).s_zmap_blocks
      → (k.super_block_list sb).s_firstdatazone ≤ block
      → block < (k.super_block_list sb).s_nzones
      → block < 2 ^ 31
      → block + 1 - (k.super_block_list sb).s_firstdatazone
        < (k.super_block_list sb).s_zmap_blocks * block_bits
      → Returns
          (λ _ k'.
            (n : ℕ)
            → n < (k.super_block_list sb).s_zmap_blocks * block_bits
            → map_bit k'.buffers (k.super_block_list sb).s_zmap n ≡ (
                if n == block + 1 - (k.super_block_list sb).s_firstdatazone
                then 0
                else map_bit k.buffers (k.super_block_list sb).s_zmap n))
          (free_zone_bitmap d fuel dev block k)
  unfolding free_zone_bitmap
  free_zone_bitmap-clear block is low high small inside =
      let s = k.super_block_list sb in
      let bit = block + 1 - s.s_firstdatazone in
      let same : (block + 1 + 2 ^ 32 - s.s_firstdatazone) % 2 ^ 32 ≡ bit = omega arith in
      let valid : (ltb block s.s_firstdatazone || leb s.s_nzones block) ≡ false = ground arith in
      let present : (s.s_zmap (bit / 2 ^ 13) == null) ≡ false =
        ground (arith, is.present (bit / 2 ^ 13) (omega arith)) in
      rw (find_super-ok d fuel mounted enough, there, valid, same, present)
        (returns λ n hn. ground (
          arith,
          map_bit-after_drop (waited k) s.s_zmap s.s_zmap_blocks (bit / block_bits)
              (bit % block_bits) is (omega arith) (omega arith) n hn,
        ))

  -- A number that is not a block of the data zone makes `free_zone_bitmap` panic; `s_nzones` is one.
  pub free_zone_bitmap-panic :
      (block : ℕ)
      → (block < (k.super_block_list sb).s_firstdatazone)
        ⊎ ((k.super_block_list sb).s_nzones ≤ block)
      → free_zone_bitmap d fuel dev block k ≡ panic "trying to free block not in datazone"
  unfolding free_zone_bitmap
  free_zone_bitmap-panic block h =
      let s = k.super_block_list sb in
      let invalid : (ltb block s.s_firstdatazone || leb s.s_nzones block) ≡ true = ground arith in
      rw (find_super-ok d fuel mounted enough, there, invalid)

-- A device stays mounted while its super block does not change.
pub Mounted-super :
    {k k' : Kernel} {dev : ℕ} {sb : Ptr}
    → k'.super_block_list ≡ k.super_block_list
    → Mounted k dev sb
    → Mounted k' dev sb
Mounted-super e m = record {
  device = m.device;
  low = m.low;
  high = m.high;
  is = rw e m.is;
  unlocked = rw e m.unlocked;
  first = λ i p q. rw e (m.first i p q);
}
