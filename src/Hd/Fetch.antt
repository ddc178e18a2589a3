-- ===== src/Hd/Fetch.antt =====
-- A block from the disk to its buffer: which buffers can be fetched, and the state in which
-- `ll_rw_block` starts the disk.
pub mod Launch
pub mod Load
pub mod Read
pub mod Wait
use eg_gs.Base.{
  ℕ, zero, suc, ◌+◌, ◌*◌, ◌/◌, ◌%◌, ◌^◌, ◌≤◌, ◌<◌, ◌≡◌, ◌≢◌, refl, Bool, ap, subst, sym, ◌∙◌, true,
  false, not, ◌&&◌, ◌||◌, Option, none, some, List, [], ◌∷◌, Ram, update, arith, leb, ltb, ◌==◌,
}
use eg_gs.Kernel.{Kernel, Ptr, null, Io, HdInfo}
use eg_gs.Kernel.Device.{Device}
use eg_gs.Kernel.Result.{
  M, Void, buffer, ◌>>=◌, ok, with_buffer, with_request, Returns, returns, Returns-then, ◌>>◌,
}
use eg_gs.Blk.{
  minor_of, major_of, cmd_read, nr_request, nr_blk_dev, slots, free_request, fill_request,
  make_request, start_rw, ll_rw_block, add_request, prepare_request,
}
use eg_gs.Blk.Elevator.Insert.{prepared, prepare_request_lem}
use eg_gs.Blk.Slots.{free_request-low}
use eg_gs.Blk.Lock.{lock_buff, wait_on_buff, wait_unlocked}
use eg_gs.Hd.{hd_major, do_hd_request}
use eg_gs.Hd.Driver.{disk, disk_interrupt}
use eg_gs.Hd.Serve.Run.{do_hd_request_idle}
use eg_gs.Hd.Serve.{AlwaysReady, Sends, Job, Awaits, InFlight, Done}
use eg_gs.Hd.Serve.Step.{
  arrived, midway, finished, finished-Finished, first_interrupt, second_interrupt,
}

-- The drive of a device, and the sector of that drive at which a block of the device begins.
abbrev pub drive_info : Kernel → (dev : ℕ) → HdInfo
drive_info k dev = k.hd_info (minor_of dev / 5)

abbrev pub sector_at : Kernel → (dev block : ℕ) → ℕ
sector_at k dev block = block * 2 + (k.partition_info (minor_of dev)).start_sect

abbrev pub sector_of : Kernel → Ptr → ℕ
sector_of k bh = sector_at k (k.buffers bh).b_dev (k.buffers bh).b_blocknr

-- A block within its partition of a disk, which is idle; `req` is the last free slot, and the address
-- of a block has room for the disk's heads and sectors.
pub record Reachable (k : Kernel) (dev block : ℕ) (req : Ptr) : Type 0 where
  pub major : major_of dev ≡ hd_major
  pub driver : (k.blk_dev hd_major).request_fn ≡ true
  pub idle : (k.blk_dev hd_major).current_request ≡ null
  pub slot : free_request nr_request k.requests ≡ some req
  pub partition : minor_of dev < k.nr_hd * 5
  pub drives : k.nr_hd ≤ 2
  pub small : block * 2 + 2 < 2 ^ 32
  pub inside : block * 2 + 2 ≤ (k.partition_info (minor_of dev)).nr_sects
  pub short : sector_at k dev block < 2 ^ 32
  pub sectors : 1 ≤ (drive_info k dev).sect
  pub sectors_byte : (drive_info k dev).sect < 2 ^ 8
  pub heads : 1 ≤ (drive_info k dev).head
  pub heads_bits : (drive_info k dev).head ≤ 16
  pub cylinders : sector_at k dev block / (drive_info k dev).sect / (drive_info k dev).head < 2 ^ 16

-- A buffer for such a block that is not up to date.
pub record Fetchable (k : Kernel) (bh req : Ptr) : Type 0 where
  pub real : bh ≢ null
  pub stale : (k.buffers bh).b_uptodate ≡ 0
  pub block : Reachable k (k.buffers bh).b_dev (k.buffers bh).b_blocknr req
  pub open block use *

-- `lock_buff`, and then the request, in `ll_rw_block`.
abbrev pub locked : Kernel → Ptr → Kernel
locked k bh =
    record (with_buffer (record k { interrupts = false }) bh (λ b. record b { b_lock = 1 })) {
      interrupts = true;
    }

abbrev pub filled : Kernel → (bh req : Ptr) → Kernel
filled k bh req = with_request (locked k bh) req (λ _. record {
  dev = some ((locked k bh).buffers bh).b_dev;
  cmd = cmd_read;
  errors = 0;
  sector = ((locked k bh).buffers bh).b_blocknr * 2 % 2 ^ 32;
  nr_sectors = 2;
  buffer = 0;
  bh = bh;
  next = null;
})

-- The state in which `ll_rw_block` calls the driver.
unfoldable pub launched : Kernel → (bh req : Ptr) → Kernel
launched k bh req =
    let k = prepared (filled k bh req) req in
    record k {
      blk_dev = update k.blk_dev hd_major (record (k.blk_dev hd_major) { current_request = req });
      interrupts = true;
    }

abbrev pub fetch_job : Kernel → (bh req : Ptr) → Job
fetch_job k bh req = record { req = req; bh = bh; dev = (k.buffers bh).b_dev; lba = sector_of k bh }
