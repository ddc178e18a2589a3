-- ===== src/Buffer/Keep/Cached.antt =====
-- Looking for a block, and giving a buffer back or its content to the disk, leave the lists alone.
use eg_gs.Base.{ℕ, zero, suc, ◌+◌}
use eg_gs.Kernel.{Ptr}
use eg_gs.Kernel.Device.{Device}
use eg_gs.Buffer.{sync_from, sync_dev, put_buff, clean_rounds}
use eg_gs.Buffer.Keep.{Keeps, keeping}
use eg_gs.Buffer.Keep.Blocks.{wait_on_buff-Keeps, ll_rw_block-Keeps}

pub sync_from-Keeps : (d : Device) (fuel dev n : ℕ) (bh : Ptr) → Keeps (sync_from d fuel dev n bh)
unfolding sync_from
sync_from-Keeps d fuel dev zero bh = search keeping
sync_from-Keeps d fuel dev (suc n) bh =
    search
      (keeping, wait_on_buff-Keeps d, ll_rw_block-Keeps d, sync_from-Keeps d fuel dev n (bh + 1))
      depth 9

pub sync_dev-Keeps : (d : Device) (fuel dev : ℕ) → Keeps (sync_dev d fuel dev)
unfolding sync_dev
sync_dev-Keeps d fuel dev = search (keeping, sync_from-Keeps d fuel dev)

pub put_buff-Keeps : (d : Device) (fuel : ℕ) (buf : Ptr) → Keeps (put_buff d fuel buf)
unfolding put_buff
put_buff-Keeps d fuel buf = search (keeping, wait_on_buff-Keeps d) depth 9

pub clean_rounds-Keeps : (d : Device) (fuel n : ℕ) (bh : Ptr) → Keeps (clean_rounds d fuel n bh)
unfolding clean_rounds
clean_rounds-Keeps d fuel zero bh = search keeping
clean_rounds-Keeps d fuel (suc n) bh =
    search (keeping, sync_dev-Keeps d, wait_on_buff-Keeps d, clean_rounds-Keeps d fuel n bh) depth 9
