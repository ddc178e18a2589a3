-- ===== src/Tests/Maps.antt =====
-- Allocation and release on the small device.
use eg_gs.Base.{ℕ, ◌+◌, ◌<◌, ◌≡◌, refl, if◌then◌else◌, arith, ◌-◌, ◌*◌, ◌^◌, ◌%◌, ◌==◌}
use eg_gs.Kernel.Result.{Returns, and_then, panic}
use eg_gs.Super.{add_inode_bitmap, add_zone_bitmap, free_inode_bitmap, free_zone_bitmap}
use eg_gs.Super.Bitmap.{block_bits, bit_at}
use eg_gs.Super.Find.{Mounted}
use eg_gs.Super.Search.{map_bit}
use eg_gs.Super.Take.{IsMap}
use eg_gs.Super.Alloc.{Outcome, add_inode_bitmap-Outcome, add_zone_bitmap-Outcome}
use eg_gs.Super.Free.{SameBits, free_zone_bitmap-clear}
use eg_gs.Super.Cycle.{free-add_inode_bitmap, free-add_zone_bitmap_past}
use eg_gs.Tests.{idle, machine}

pub small-Mounted : Mounted machine 0x302 1
small-Mounted = record {
  device = omega arith;
  low = omega arith;
  high = omega arith;
  is = refl;
  unlocked = refl;
  first = λ i p q. absurd (omega arith);
}

pub one_block : IsMap (λ _. 1) 1
one_block = record { present = λ b h. omega arith; distinct = λ a b p q e. omega arith }

pub low_set : (n : ℕ) → n < 2 → map_bit machine.buffers (λ _. 1) n ≡ 1
unfolding map_bit bit_at
low_set ℕ.zero h = refl
low_set (ℕ.suc ℕ.zero) h = refl
low_set (ℕ.suc (ℕ.suc n)) h = absurd (omega arith)

bit_two_clear : map_bit machine.buffers (λ _. 1) 2 ≡ 0
unfolding map_bit bit_at
bit_two_clear = refl

add_inode_bitmap-Outcome_example :
    Returns
      (λ r k'.
        Outcome machine.buffers (λ _. 1) 1 2 (λ n. n) r k'.buffers
        × (k'.super_block_list ≡ machine.super_block_list))
      (add_inode_bitmap idle 9 0x302 machine)
add_inode_bitmap-Outcome_example =
    add_inode_bitmap-Outcome idle 9 small-Mounted (omega arith) one_block

add_zone_bitmap-Outcome_example :
    Returns
      (λ r k'.
        Outcome machine.buffers (λ _. 1) 1 2 (λ n. (n + 1 + 2 ^ 32 - 1) % 2 ^ 32) r k'.buffers
        × (k'.super_block_list ≡ machine.super_block_list))
      (add_zone_bitmap idle 9 0x302 machine)
add_zone_bitmap-Outcome_example =
    add_zone_bitmap-Outcome idle 9 small-Mounted (omega arith) one_block (omega arith)

free_zone_bitmap-clear_example :
    Returns
      (λ _ k'.
        (n : ℕ)
        → n < 1 * block_bits
        → map_bit k'.buffers (λ _. 1) n
          ≡ (if n == 1 then 0 else map_bit machine.buffers (λ _. 1) n))
      (free_zone_bitmap idle 9 0x302 1 machine)
free_zone_bitmap-clear_example =
    free_zone_bitmap-clear idle 9 small-Mounted (omega arith) 1 one_block (omega arith)
      (omega arith) (omega arith) (omega arith)

free-add_inode_bitmap_example :
    Returns
      (λ _ k'. SameBits machine.buffers k'.buffers (λ _. 1) 1)
      (and_then (add_inode_bitmap idle 9 0x302 machine) (free_inode_bitmap idle 9 0x302))
free-add_inode_bitmap_example =
    free-add_inode_bitmap idle 9 small-Mounted (omega arith) 2 one_block (low_set 0 (omega arith))
      (omega arith) (omega arith) bit_two_clear

free-add_zone_bitmap_past_example :
    Returns (λ r _. r ≡ 2) (add_zone_bitmap idle 9 0x302 machine)
    × (and_then (add_zone_bitmap idle 9 0x302 machine) (free_zone_bitmap idle 9 0x302)
        ≡ panic "trying to free block not in datazone")
free-add_zone_bitmap_past_example =
    free-add_zone_bitmap_past idle 9 small-Mounted (omega arith) one_block (omega arith)
      (omega arith) (omega arith) (omega arith) bit_two_clear low_set
