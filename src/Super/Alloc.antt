-- ===== src/Super/Alloc.antt =====
-- Allocation in the two bitmaps of a mounted device.
use eg_gs.Base.{
  ℕ, ◌+◌, ◌-◌, ◌*◌, ◌%◌, ◌^◌, ◌≤◌, ◌<◌, ◌≡◌, refl, true, false, inl, inr, Bool, Bool-cases, Ram,
  arith, ◌==◌, ltb, leb, ◌||◌,
}
use eg_gs.Kernel.{Kernel, Ptr, null, BufferHead}
use eg_gs.Kernel.Device.{Device}
use eg_gs.Kernel.Result.{Returns, returns}
use eg_gs.Super.{Scan, scan_maps, take_scanned, add_inode_bitmap, add_zone_bitmap, nr_super}
use eg_gs.Super.Bitmap.{block_bits}
use eg_gs.Super.Find.{Mounted, waited, find_super-ok}
use eg_gs.Super.Search.{map_bit, Scanned, scan_maps-Scanned}
use eg_gs.Super.Take.{IsMap, Taken, take_found}

-- What a search for a free bit leads to: `r` is the number that stands for the bit `pos`.
pub data Outcome (bs : Ram BufferHead) (maps : Ram Ptr) (blocks limit : ℕ) (number : ℕ → ℕ) (r : ℕ)
    (bs' : Ram BufferHead) : Type 0 where
  found :
      (pos : ℕ)
      → r ≡ number pos
      → pos ≤ limit
      → Taken bs maps blocks pos bs'
      → Outcome bs maps blocks limit number r bs'
  exhausted :
      r ≡ 0
      → bs' ≡ bs
      → ((n : ℕ) → n ≤ limit → n < blocks * block_bits → map_bit bs maps n ≡ 1)
      → Outcome bs maps blocks limit number r bs'

scanned :
    (k : Kernel) (maps : Ram Ptr) (blocks : ℕ)
    → IsMap maps blocks
    → Scanned k.buffers maps 0 blocks (scan_maps blocks k maps 0 null block_bits)
scanned k maps blocks is =
    scan_maps-Scanned blocks k maps 0 null block_bits (λ b p q. is.present b (omega arith))
      (omega arith)

-- Both searches: the first clear bit is taken, if it is not beyond the limit.
take_scanned-Outcome :
    (k : Kernel) (maps : Ram Ptr) (blocks limit : ℕ) (number : ℕ → ℕ) (f : Scan) (beyond : Bool)
    → IsMap maps blocks
    → Scanned k.buffers maps 0 blocks f
    → beyond ≡ ltb limit (f.j + f.i * block_bits)
    → Returns
        (λ r k'.
          Outcome k.buffers maps blocks limit number r k'.buffers
          × (k'.super_block_list ≡ k.super_block_list))
        (take_scanned f beyond (number (f.j + f.i * block_bits)) k)
unfolding take_scanned
take_scanned-Outcome k maps blocks limit number f beyond is s test =
    elim (Bool-cases (leb block_bits f.j)) [
      | inl e ↦
          let stop : (f.bh == null || leb block_bits f.j || beyond) ≡ true = ground arith in
          rw stop (
            returns (
              exhausted refl refl (λ n _ hn. s.miss (ground arith) n (omega arith) (omega arith)),
              refl,
            ))
      | inr e ↦
          let small : f.j < block_bits = ground arith in
          let (low, high, bh, clear, full) = s.hit small in
          let there : (f.bh == null) ≡ false = ground (arith, is.present f.i (omega arith)) in
          let (takes, taken) = take_found k maps blocks f is s small in
          elim (Bool-cases beyond) [
            | inl far ↦
                rw (e, there, far)
                  (returns
                    (exhausted refl refl (λ n hn _. full n (omega arith) (ground arith)), refl))
            | inr near ↦
                rw (e, there, near, takes)
                  (returns (found (f.j + f.i * block_bits) refl (ground arith) taken, refl))
          ]
    ]

module _ (d : Device) (fuel : ℕ) {k : Kernel} {dev : ℕ} {sb : Ptr} (mounted : Mounted k dev sb)
    (enough : nr_super < fuel) where
  there : (sb == null) ≡ false
  there = ground (arith, mounted.low)

  -- On a mounted device that is not locked and whose inode map has all its blocks, no two the same,
  -- `add_inode_bitmap` returns. Either it returns the number of the first clear
  -- bit of the inode map, which is at most `s_ninodes`, and sets that bit and no other, or it
  -- returns 0, changes no buffer, and every bit of the map up to `s_ninodes` was set.
  pub add_inode_bitmap-Outcome :
      IsMap (k.super_block_list sb).s_imap (k.super_block_list sb).s_imap_blocks
      → Returns
          (λ r k'.
            Outcome k.buffers
              (k.super_block_list sb).s_imap
              (k.super_block_list sb).s_imap_blocks
              (k.super_block_list sb).s_ninodes
              (λ n. n)
              r
              k'.buffers
            × (k'.super_block_list ≡ k.super_block_list))
          (add_inode_bitmap d fuel dev k)
  unfolding add_inode_bitmap
  add_inode_bitmap-Outcome is =
      let s = k.super_block_list sb in
      rw (find_super-ok d fuel mounted enough, there)
        (take_scanned-Outcome (waited k) s.s_imap s.s_imap_blocks s.s_ninodes (λ n. n) _ _ is
          (scanned (waited k) s.s_imap s.s_imap_blocks is) refl)

  -- On a mounted device that is not locked, whose zone map has all its blocks, no two the same, and
  -- whose data zone starts within it, `add_zone_bitmap` returns. Either it
  -- returns the number of the block that the first clear bit of the zone map stands for (bit `n`
  -- stands for block `n + s_firstdatazone - 1`), which is at most `s_nzones`, and sets that bit and
  -- no other, or it returns 0, changes no buffer, and every bit for a block up to `s_nzones` was set.
  pub add_zone_bitmap-Outcome :
      IsMap (k.super_block_list sb).s_zmap (k.super_block_list sb).s_zmap_blocks
      → (k.super_block_list sb).s_firstdatazone ≤ (k.super_block_list sb).s_nzones
      → Returns
          (λ r k'.
            Outcome k.buffers
              (k.super_block_list sb).s_zmap
              (k.super_block_list sb).s_zmap_blocks
              ((k.super_block_list sb).s_nzones + 1 - (k.super_block_list sb).s_firstdatazone)
              (λ n. (n + (k.super_block_list sb).s_firstdatazone + 2 ^ 32 - 1) % 2 ^ 32)
              r
              k'.buffers
            × (k'.super_block_list ≡ k.super_block_list))
          (add_zone_bitmap d fuel dev k)
  unfolding add_zone_bitmap
  add_zone_bitmap-Outcome is h =
      let s = k.super_block_list sb in
      rw (find_super-ok d fuel mounted enough, there)
        (take_scanned-Outcome (waited k) s.s_zmap s.s_zmap_blocks
          (s.s_nzones + 1 - s.s_firstdatazone) (λ n. (n + s.s_firstdatazone + 2 ^ 32 - 1) % 2 ^ 32)
          _ _ is (scanned (waited k) s.s_zmap s.s_zmap_blocks is) (ground arith))
