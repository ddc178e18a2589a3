-- ===== src/Start/Count.antt =====
-- The count of free inodes that `sys_setup` prints, and what `add_inode_bitmap` does to it.
use eg_gs.Base.{
  ℕ, zero, suc, ◌+◌, ◌*◌, ◌≤◌, ◌<◌, ◌≡◌, refl, ◌∙◌, true, false, Ram, arith, ltb, ◌==◌,
  if◌then◌else◌,
}
use eg_gs.Kernel.{Kernel, Ptr, BufferHead}
use eg_gs.Kernel.Device.{Device}
use eg_gs.Kernel.Result.{Returns, weaken}
use eg_gs.Start.{free_bits}
use eg_gs.Super.{add_inode_bitmap, nr_super}
use eg_gs.Super.Bitmap.{block_bits}
use eg_gs.Super.Find.{Mounted}
use eg_gs.Super.Search.{map_bit}
use eg_gs.Super.Take.{IsMap, Taken}
use eg_gs.Super.Alloc.{Outcome, found, exhausted, add_inode_bitmap-Outcome}

-- One clear bit has been set.
free_bits-Taken :
    (n : ℕ) (bs bs' : Ram BufferHead) (map : Ram Ptr) (blocks pos : ℕ)
    → n ≤ blocks * block_bits
    → Taken bs map blocks pos bs'
    → free_bits n bs map ≡ free_bits n bs' map + (if ltb pos n then 1 else 0)
unfolding free_bits map_bit
free_bits-Taken zero bs bs' map blocks pos h t = ground arith
free_bits-Taken (suc n) bs bs' map blocks pos h t =
    let rest = free_bits-Taken n bs bs' map blocks pos (omega arith) t in
    ground (arith, rest, t.was_clear, t.marked n (omega arith))

free_bits-full :
    (n : ℕ) (bs : Ram BufferHead) (map : Ram Ptr)
    → ((i : ℕ) → i < n → map_bit bs map i ≡ 1)
    → free_bits n bs map ≡ 0
unfolding free_bits map_bit
free_bits-full zero bs map h = refl
free_bits-full (suc n) bs map h =
    let rest = free_bits-full n bs map (λ i hi. h i (omega arith)) in
    ground (arith, rest, h n (omega arith))

-- The free inodes of the device `sb`, in the way that `sys_setup` counts them.
abbrev pub free_inodes_of : Ptr → Kernel → ℕ
free_inodes_of sb k =
    free_bits ((k.super_block_list sb).s_ninodes + 1) k.buffers (k.super_block_list sb).s_imap

-- On a mounted device that is not locked, whose inode map has all its blocks, no two the same, and a
-- bit for every inode, with bit 0 set: `add_inode_bitmap` returns 0 only if there was no free inode,
-- in the count that `sys_setup` prints, and that count is one less after it if it has returned
-- another number, and the same otherwise.
pub add_inode_bitmap-free_bits :
    (d : Device) (fuel : ℕ) {k : Kernel} {dev : ℕ} {sb : Ptr}
    → Mounted k dev sb
    → nr_super < fuel
    → IsMap (k.super_block_list sb).s_imap (k.super_block_list sb).s_imap_blocks
    → (k.super_block_list sb).s_ninodes < (k.super_block_list sb).s_imap_blocks * block_bits
    → map_bit k.buffers (k.super_block_list sb).s_imap 0 ≡ 1
    → Returns
        (λ r k'.
          (free_inodes_of sb k ≡ free_inodes_of sb k' + (if r == 0 then 0 else 1))
          × (r ≡ 0 → free_inodes_of sb k ≡ 0))
        (add_inode_bitmap d fuel dev k)
add_inode_bitmap-free_bits d fuel {k} {dev} {sb} mounted enough is room first =
    weaken (add_inode_bitmap-Outcome d fuel mounted enough is)
      (λ r k' (o, same). rw same (counted r k'.buffers o))
  where
    counted :
        (r : ℕ) (bs' : Ram BufferHead)
        → Outcome k.buffers
            (k.super_block_list sb).s_imap
            (k.super_block_list sb).s_imap_blocks
            (k.super_block_list sb).s_ninodes
            (λ n. n)
            r
            bs'
        → (free_inodes_of sb k
            ≡ free_bits ((k.super_block_list sb).s_ninodes + 1) bs' (k.super_block_list sb).s_imap
              + (if r == 0 then 0 else 1))
          × (r ≡ 0 → free_inodes_of sb k ≡ 0)
    counted r bs' (found pos e low t) =
        let map = (k.super_block_list sb).s_imap in
        let count =
          free_bits-Taken ((k.super_block_list sb).s_ninodes + 1) k.buffers bs' map
            (k.super_block_list sb).s_imap_blocks pos (omega arith) t in
        let below : ltb pos ((k.super_block_list sb).s_ninodes + 1) ≡ true = ground arith in
        let some_pos : (r == 0) ≡ false = ground (arith, t.was_clear) in
        rw some_pos (count ∙ rw below refl, λ z. absurd (ground arith))
    counted r bs' (exhausted e same full) =
        let none_free =
          free_bits-full ((k.super_block_list sb).s_ninodes + 1) k.buffers
            (k.super_block_list sb).s_imap (λ i hi. full i (omega arith) (omega arith)) in
        rw (e, same) (omega arith, λ _. none_free)
