-- ===== src/Tests/Boot.antt =====
-- The start of the kernel, the clock, and faults.
use eg_gs.Base.{
  ℕ, ◌+◌, ◌-◌, ◌%◌, ◌≡◌, ◌^◌, refl, some, ◌++◌, codes, arith, ltb, ◌==◌, if◌then◌else◌,
}
use eg_gs.Kernel.Result.{Returns}
use eg_gs.Gate.Faults.{
  exception_messages, message_at, fault_handler, goes_on, halts, fault_handler-halts,
}
use eg_gs.Inode.Disk.{load_inode, store_inode}
use eg_gs.Inode.Disk.Restored.{AreBytes, store_inode-load_inode}
use eg_gs.Inode.{no_inode}
use eg_gs.Screen.{puts}
use eg_gs.Start.Clock.{timer_wait, timer_wait-ends}
use eg_gs.Start.Count.{free_inodes_of, add_inode_bitmap-free_bits}
use eg_gs.Super.{add_inode_bitmap}
use eg_gs.Tests.{idle, machine}
use eg_gs.Tests.Maps.{small-Mounted, one_block, low_set}
use eg_gs.Tests.Output.{dark}

fault_handler-halts_example : fault_handler dark 14 ≡ (
    if ltb 14 32
    then halts
        (puts dark (message_at exception_messages 14 ++ codes " Exception. System Halted!\n"))
    else goes_on dark)
fault_handler-halts_example = fault_handler-halts dark 14

page_fault_test : message_at exception_messages 14 ≡ codes "Page Fault"
unfolding message_at exception_messages
page_fault_test = refl

timer_wait-ends_example :
    timer_wait 7 100 5 ≡ some (if ltb (100 + 5) (2 ^ 32) then 100 + 5 else 100)
timer_wait-ends_example = timer_wait-ends 7 100 5 (omega arith) (omega arith) (omega arith)

-- Near the end of the range the wait is over at once.
wrapped_wait_test : timer_wait 7 (2 ^ 32 - 2) 5 ≡ some (2 ^ 32 - 2)
unfolding timer_wait
wrapped_wait_test = refl

add_inode_bitmap-free_bits_example :
    Returns
      (λ r k'.
        (free_inodes_of 1 machine ≡ free_inodes_of 1 k' + (if r == 0 then 0 else 1))
        × (r ≡ 0 → free_inodes_of 1 machine ≡ 0))
      (add_inode_bitmap idle 9 0x302 machine)
add_inode_bitmap-free_bits_example =
    add_inode_bitmap-free_bits idle 9 small-Mounted (omega arith) one_block (omega arith)
      (low_set 0 (omega arith))

-- A block in which neighbouring bytes differ.
abbrev counted : ℕ → ℕ
counted q = q % 2 ^ 8

counted-AreBytes : AreBytes counted
counted-AreBytes q = omega arith

store_inode-load_inode_example : store_inode counted 64 (load_inode counted 64 no_inode) ≡ counted
store_inode-load_inode_example = store_inode-load_inode counted 64 no_inode counted-AreBytes
