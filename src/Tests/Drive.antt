-- ===== src/Tests/Drive.antt =====
-- A drive of 4 heads and 10 sectors that can take a command, with a read of sector 8 of its first
-- partition in progress.
use eg_gs.Base.{ℕ, refl, true, some, List, Ram, arith}
use eg_gs.Kernel.{Kernel, Request, Io, read_intr}
use eg_gs.Kernel.Result.{Returns, Ensures}
use eg_gs.Kernel.Device.{Quiet}
use eg_gs.Hd.Driver.{disk_interrupt, driver-Quiet}
use eg_gs.Hd.{do_hd_request}
use eg_gs.Hd.Access.{Readable, Reading, Commanded, do_hd_request-read}
use eg_gs.Tests.{machine, head_buffer, free_slot}

abbrev ready_drive : List Io → (port : ℕ) → ℕ
ready_drive _ _ = 0x40

abbrev sector_eight : Request
sector_eight = record free_slot { dev = some 0x301; sector = 8; nr_sectors = 2; bh = 1 }

abbrev reading : Kernel
reading = record machine {
  buffers = λ _. record head_buffer { b_lock = 1 };
  requests = λ _. sector_eight;
  blk_dev = λ _. record { request_fn = true; current_request = 1 };
  hd_info = λ _. record { head = 4; sect = 10; cyl = 100 };
  nr_hd = 1;
  partition_info = λ _. record { start_sect = 63; nr_sects = 1000 };
}

reading-Readable : Readable reading 1 0x301 71
reading-Readable = record {
  some_request = omega arith;
  device = refl;
  major = refl;
  command = refl;
  locked = omega arith;
  partition = omega arith;
  drives = omega arith;
  small = omega arith;
  inside = omega arith;
  at = refl;
  short = omega arith;
  sectors = omega arith;
  sectors_byte = omega arith;
  heads = omega arith;
  heads_bits = omega arith;
  cylinders = omega arith;
}

reading-Reading : Reading reading 1 0x301 71
reading-Reading = record { is = refl; what = reading-Readable }

do_hd_request-read_example :
    Returns (λ _ k'. Commanded reading 0 2 71 k') (do_hd_request ready_drive 1 reading)
do_hd_request-read_example =
    do_hd_request-read ready_drive 0 reading 1 0x301 71 refl refl refl reading-Reading

-- A drive that has data to transfer, and an interrupt that comes for it.
abbrev data_ready : List Io → (port : ℕ) → ℕ
data_ready _ _ = 0x58

abbrev same_data : List Io → Ram ℕ
same_data _ _ = 0x5A

abbrev interrupted : Kernel
interrupted = record reading { irq14 = some read_intr }

driver-Quiet_example :
    Ensures (λ _ k'. Quiet interrupted k') (do_hd_request data_ready 3 interrupted)
    × Ensures (λ _ k'. Quiet interrupted k') (disk_interrupt data_ready same_data 3 interrupted)
driver-Quiet_example = driver-Quiet data_ready same_data 3 interrupted
