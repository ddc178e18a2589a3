-- ===== src/Super/Find.antt =====
-- `find_super` on a table of mounted devices.
use eg_gs.Base.{
  ℕ, zero, suc, ◌+◌, ◌≤◌, ◌<◌, ◌≡◌, ◌≢◌, true, false, inl, inr, Bool-cases, arith, ◌==◌, leb,
}
use eg_gs.Kernel.{Kernel, Ptr}
use eg_gs.Kernel.Device.{Device}
use eg_gs.Kernel.Result.{ok}
use eg_gs.Super.{find_super, find_super_from, wait_on_super, nr_super}

-- The super block `sb` is the first one of the device `dev`, and is not locked.
pub record Mounted (k : Kernel) (dev : ℕ) (sb : Ptr) : Type 0 where
  pub device : dev ≢ 0
  pub low : 1 ≤ sb
  pub high : sb ≤ nr_super
  pub is : (k.super_block_list sb).s_dev ≡ dev
  pub unlocked : (k.super_block_list sb).s_lock ≡ 0
  pub first : (i : ℕ) → 1 ≤ i → i < sb → (k.super_block_list i).s_dev ≢ dev

-- The state after a wait for a lock that is free.
abbrev pub waited : Kernel → Kernel
waited k = record k { interrupts = false }

wait_on_super_free :
    (d : Device) (fuel : ℕ) (k : Kernel) (sb : Ptr)
    → 0 < fuel
    → (k.super_block_list sb).s_lock ≡ 0
    → wait_on_super d fuel sb k ≡ ok tt (waited k)
unfolding wait_on_super
wait_on_super_free d zero k sb h e = absurd (omega arith)
wait_on_super_free d (suc n) k sb h e = ground arith

module _ (d : Device) (fuel : ℕ) {k : Kernel} {dev : ℕ} {sb : Ptr} (mounted : Mounted k dev sb)
    (enough : nr_super < fuel) where
  find_super_from-ok :
      (n i : ℕ) → 1 ≤ i → i ≤ sb → sb < i + n → find_super_from d fuel n dev i k ≡ ok sb (waited k)
  unfolding find_super_from
  find_super_from-ok zero i p q r = absurd (omega arith)
  find_super_from-ok (suc n) i p q r = elim (Bool-cases (i == sb)) [
    | inl e ↦
        let here : i ≡ sb = ground arith in
        rw here (
          ground (
            arith,
            mounted.is,
            mounted.high,
            mounted.unlocked,
            wait_on_super_free d fuel k sb (omega arith),
          ))
    | inr e ↦
        let other : ((k.super_block_list i).s_dev == dev) ≡ false =
          ground (arith, mounted.first i) in
        let inside : leb i nr_super ≡ true = ground (arith, mounted.high) in
        rw (inside, other) (find_super_from-ok n (i + 1) (omega arith) (ground arith) (omega arith))
  ]

  -- `find_super` of a mounted device returns its super block, with the interrupts off.
  pub find_super-ok : find_super d fuel dev k ≡ ok sb (waited k)
  unfolding find_super
  find_super-ok =
      let given : (dev == 0) ≡ false = ground (arith, mounted.device) in
      rw given (find_super_from-ok fuel 1 (omega arith) mounted.low (omega (arith, mounted.high)))
