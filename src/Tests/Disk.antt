-- ===== src/Tests/Disk.antt =====
-- The machine with a request for sector 4 in progress and one for sector 8 behind it.
use eg_gs.Base.{ℕ, ◌≡◌, refl, inr, true, [], ◌∷◌, some, Ram, arith, ◌==◌, if◌then◌else◌}
use eg_gs.Kernel.{Kernel, Request}
use eg_gs.Kernel.Result.{Returns}
use eg_gs.Blk.Slots.{Slot, free_request-slots}
use eg_gs.Blk.{slots, free_request, cmd_write, add_request, in_order}
use eg_gs.Blk.Elevator.{IsQueue}
use eg_gs.Blk.Elevator.Order.{descents, AllDiffer}
use eg_gs.Blk.Elevator.Sweep.{Pending, Added, add_request_sweep, add_request_behind}
use eg_gs.Tests.{idle, machine, free_slot}

abbrev read_of : (sector next : ℕ) → Request
read_of sector next = record free_slot { dev = some 0x301; sector = sector; next = next }

-- The slots 1 and 2 are queued, 3 is new and between them, 4 is new and before them.
abbrev slot : Ram Request
slot p =
    if p == 1
    then read_of 4 2
    else if p == 2
    then read_of 8 0
    else if p == 3
    then read_of 6 0
    else if p == 4
    then read_of 2 0
    else free_slot

abbrev busy : Kernel
busy = record machine {
  requests = slot;
  blk_dev = λ _. record { request_fn = true; current_request = 1 };
}

busy-Pending : Pending busy 3 1 (2 ∷ [])
busy-Pending = record {
  queue = (refl, omega arith, refl, (refl, omega arith, refl, refl));
  room = omega arith;
}

new_differs : AllDiffer slot 3 (2 ∷ [])
new_differs = (inr (inr (omega arith)), tt)

one_sweep : descents slot 1 (2 ∷ []) ≡ 0
unfolding descents in_order
one_sweep = refl

four_before : in_order (slot 4) (slot 1) ≡ true
unfolding in_order
four_before = refl

add_request_sweep_example :
    Returns (λ _ k'. Added busy 3 3 1 (2 ∷ []) k') (add_request idle 3 3 busy)
add_request_sweep_example =
    add_request_sweep idle busy 3 3 1 (2 ∷ []) busy-Pending refl (omega arith) new_differs
      (omega (arith, one_sweep))

add_request_behind_example :
    Returns
      (λ _ k'. IsQueue k'.requests (k'.blk_dev 3).current_request (1 ∷ 2 ∷ 4 ∷ []))
      (add_request idle 3 4 busy)
add_request_behind_example =
    add_request_behind idle busy 3 4 1 (2 ∷ []) busy-Pending refl (omega arith) one_sweep
      four_before

free_request-slots_example : Slot slot 21 (free_request (slots cmd_write) slot)
free_request-slots_example = free_request-slots slot cmd_write
