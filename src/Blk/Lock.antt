-- ===== src/Blk/Lock.antt =====
-- The locks of buffer heads, from buffer.c. `wait_on_buff` leaves the interrupts off when it finds
-- the lock free, since only the body of its loop switches them on again.
use eg_gs.Base.{ℕ, zero, suc, true, false, ◌==◌, if◌then◌else◌}
use eg_gs.Kernel.{Ptr}
use eg_gs.Kernel.Device.{Device}
use eg_gs.Kernel.Result.{M, Void, ◌>>=◌, ◌>>◌, skip, spin, buffer, set_buffer, set_interrupts}

unfoldable pub lock_buff : Ptr → M Void
lock_buff bh = do
  set_interrupts false
  set_buffer bh (λ b. record b { b_lock = 1 })
  set_interrupts true

unfoldable pub unlock_buff : Ptr → M Void
unlock_buff bh = set_buffer bh (λ b. record b { b_lock = 0 })

module _ (d : Device) where
  -- `while (bh->b_lock) sti();` with the driver's interrupts between two tests.
  unfoldable pub wait_unlocked : ℕ → Ptr → M Void
  wait_unlocked zero bh = spin
  wait_unlocked (suc fuel) bh =
      let again = wait_unlocked fuel bh in
      do b ← buffer bh; if b.b_lock == 0 then skip else set_interrupts true >> d.interrupt >> again

  unfoldable pub wait_on_buff : ℕ → Ptr → M Void
  unfolding wait_unlocked
  wait_on_buff fuel bh = set_interrupts false >> wait_unlocked fuel bh
