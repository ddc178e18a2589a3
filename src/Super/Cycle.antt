-- ===== src/Super/Cycle.antt =====
-- Allocation followed by the release of what was allocated.
use eg_gs.Base.{
  ℕ, ◌+◌, ◌-◌, ◌*◌, ◌%◌, ◌^◌, ◌≤◌, ◌<◌, ◌≡◌, inr, ◌∙◌, ap, subst, Ram, arith, ◌==◌, if◌then◌else◌,
}
use eg_gs.Kernel.{Kernel, Ptr, BufferHead, SuperBlock}
use eg_gs.Kernel.Device.{Device}
use eg_gs.Kernel.Result.{panic, Returns, Returns-then, weaken, and_then}
use eg_gs.Super.{add_inode_bitmap, add_zone_bitmap, free_inode_bitmap, free_zone_bitmap, nr_super}
use eg_gs.Super.Bitmap.{block_bits}
use eg_gs.Super.Find.{Mounted}
use eg_gs.Super.Search.{map_bit}
use eg_gs.Super.Take.{IsMap, Taken}
use eg_gs.Super.Alloc.{Outcome, found, exhausted, add_inode_bitmap-Outcome, add_zone_bitmap-Outcome}
use eg_gs.Super.Free.{SameBits, Mounted-super, free_inode_bitmap-clear, free_zone_bitmap-panic}

-- The inode map of a super block.
abbrev pub imap_bit : Kernel → Ptr → ℕ → ℕ
imap_bit k sb n = map_bit k.buffers (k.super_block_list sb).s_imap n

abbrev pub zmap_bit : Kernel → Ptr → ℕ → ℕ
zmap_bit k sb n = map_bit k.buffers (k.super_block_list sb).s_zmap n

-- A clear bit up to the limit excludes that the search ends with nothing.
found_of_clear :
    {bs bs' : Ram BufferHead} {maps : Ram Ptr} {blocks limit : ℕ} (number : ℕ → ℕ) {r : ℕ} (n : ℕ)
    → n ≤ limit
    → n < blocks * block_bits
    → map_bit bs maps n ≡ 0
    → Outcome bs maps blocks limit number r bs'
    → (pos : ℕ) × (r ≡ number pos) × (pos ≤ n) × Taken bs maps blocks pos bs'
found_of_clear number n h inside clear (found pos e _ t) = (pos, e, ground (arith, t.least n), t)
found_of_clear number n h inside clear (exhausted _ _ all) = absurd (omega (arith, all n h inside))

-- The bit that stands for block `s_nzones`, which is one past the last block of the device.
abbrev pub past_bit : SuperBlock → ℕ
past_bit s = s.s_nzones + 1 - s.s_firstdatazone

-- `free_inode_bitmap` in a state whose super block is `s`.
abbrev Clears : Device → (fuel dev inode_num : ℕ) → Kernel → SuperBlock → Type 0
Clears d fuel dev num k s =
    IsMap s.s_imap s.s_imap_blocks
    → 1 ≤ num
    → num ≤ s.s_ninodes
    → num < s.s_imap_blocks * block_bits
    → Returns
        (λ _ k'.
          (n : ℕ)
          → n < s.s_imap_blocks * block_bits
          → map_bit k'.buffers s.s_imap n ≡ (if n == num then 0 else map_bit k.buffers s.s_imap n))
        (free_inode_bitmap d fuel dev num k)

module _ (d : Device) (fuel : ℕ) {k : Kernel} {dev : ℕ} {sb : Ptr} (mounted : Mounted k dev sb)
    (enough : nr_super < fuel) where
  -- On a mounted device that is not locked and whose inode map has all its blocks, no two the same,
  -- if bit 0 of the inode map is set and some inode up to `s_ninodes` is free, allocating an inode
  -- and freeing it again returns, and leaves every bit of the map as it was.
  pub free-add_inode_bitmap :
      (n : ℕ)
      → IsMap (k.super_block_list sb).s_imap (k.super_block_list sb).s_imap_blocks
      → imap_bit k sb 0 ≡ 1
      → n ≤ (k.super_block_list sb).s_ninodes
      → n < (k.super_block_list sb).s_imap_blocks * block_bits
      → imap_bit k sb n ≡ 0
      → Returns
          (λ _ k'.
            SameBits k.buffers k'.buffers
              (k.super_block_list sb).s_imap
              (k.super_block_list sb).s_imap_blocks)
          (and_then (add_inode_bitmap d fuel dev k) (free_inode_bitmap d fuel dev))
  free-add_inode_bitmap n is reserved high inside clear =
      Returns-then (Returns _) (free_inode_bitmap d fuel dev)
        (add_inode_bitmap-Outcome d fuel mounted enough is)
        λ r k' (out, same).
          let (pos, e, low, t) = found_of_clear (λ n. n) n high inside clear out in
          let clears : Clears d fuel dev r k' (k.super_block_list sb) =
            subst (λ l. Clears d fuel dev r k' (l sb)) same
              (free_inode_bitmap-clear d fuel (Mounted-super same mounted) enough r) in
          weaken (clears is (ground (arith, t.was_clear)) (omega arith) (omega (arith, t.inside)))
            λ _ k'' bits m hm. ground (arith, bits m hm, t.marked m hm, t.was_clear)

  -- On a mounted device that is not locked, of fewer than 2 ^ 16 zones, whose first data zone is one of
  -- them and not 0, and whose zone map has all its blocks, no two the same: if the first clear bit of
  -- the zone map stands for block `s_nzones`, one past the device, `add_zone_bitmap` hands that block
  -- out, and giving it back makes the kernel panic.
  pub free-add_zone_bitmap_past :
      IsMap (k.super_block_list sb).s_zmap (k.super_block_list sb).s_zmap_blocks
      → 1 ≤ (k.super_block_list sb).s_firstdatazone
      → (k.super_block_list sb).s_firstdatazone ≤ (k.super_block_list sb).s_nzones
      → (k.super_block_list sb).s_nzones < 2 ^ 16
      → past_bit (k.super_block_list sb) < (k.super_block_list sb).s_zmap_blocks * block_bits
      → zmap_bit k sb (past_bit (k.super_block_list sb)) ≡ 0
      → ((n : ℕ) → n < past_bit (k.super_block_list sb) → zmap_bit k sb n ≡ 1)
      → Returns (λ r _. r ≡ (k.super_block_list sb).s_nzones) (add_zone_bitmap d fuel dev k)
        × (and_then (add_zone_bitmap d fuel dev k) (free_zone_bitmap d fuel dev)
            ≡ panic "trying to free block not in datazone")
  free-add_zone_bitmap_past is first nz small inside clear all =
      let s = k.super_block_list sb in
      let out = add_zone_bitmap-Outcome d fuel mounted enough is nz in
      let gives : (r : ℕ) (bs' : Ram BufferHead)
          → Outcome k.buffers s.s_zmap s.s_zmap_blocks (past_bit s)
              (λ n. (n + s.s_firstdatazone + 2 ^ 32 - 1) % 2 ^ 32) r bs'
          → r ≡ s.s_nzones =
        λ r bs' o.
          let (pos, e, low, t) =
            found_of_clear (λ n. (n + s.s_firstdatazone + 2 ^ 32 - 1) % 2 ^ 32) (past_bit s)
              (omega arith) inside clear o in
          let at : pos ≡ past_bit s = ground (arith, all pos, t.was_clear) in e ∙ omega arith in
      (
        weaken out (λ r k' p. gives r k'.buffers p.0),
        Returns-then (λ x. x ≡ panic "trying to free block not in datazone")
            (free_zone_bitmap d fuel dev) out
            λ r k' (o, same).
              let end : (k'.super_block_list sb).s_nzones ≡ s.s_nzones =
                ap (λ (l : Ram SuperBlock). (l sb).s_nzones) same in
              free_zone_bitmap-panic d fuel (Mounted-super same mounted) enough r
                (inr (omega (arith, gives r k'.buffers o, end))),
      )
