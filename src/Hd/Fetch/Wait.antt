-- ===== src/Hd/Fetch/Wait.antt =====
-- The wait for a buffer whose read is in progress.
use eg_gs.Base.{ℕ, suc, ◌≡◌, refl, Bool, ap, ◌∙◌, true, false, List, Ram, arith, ◌==◌}
use eg_gs.Kernel.{Kernel, null, Io}
use eg_gs.Kernel.Result.{ok}
use eg_gs.Blk.Lock.{wait_on_buff, wait_unlocked}
use eg_gs.Hd.Driver.{disk, disk_interrupt}
use eg_gs.Hd.Serve.Run.{do_hd_request_idle}
use eg_gs.Hd.Serve.{AlwaysReady, Sends, Job, InFlight}
use eg_gs.Hd.Serve.Step.{
  arrived, midway, finished, finished-Finished, first_interrupt, second_interrupt,
}

pub InFlight-interrupts :
    (k : Kernel) (j : Job) (b : Bool) → InFlight k j → InFlight (record k { interrupts = b }) j
InFlight-interrupts k j b g = record {
  job = ground arith;
  is = g.is;
  waits = g.waits;
  sec = g.sec;
  low = g.low;
  high = g.high;
  drive_head = g.drive_head;
  io = g.io;
  sent = g.sent;
  selects = g.selects;
  block = g.block;
}

module _ (answer : List Io → (port : ℕ) → ℕ) (stream : List Io → Ram ℕ)
    (content : (drive lba : ℕ) → Ram ℕ) (ready : AlwaysReady answer) (n : ℕ) where
  -- The wait for a read in progress with none behind it: two interrupts come between three tests.
  pub wait_on_buff-InFlight :
      (m : ℕ) (k : Kernel) (j : Job)
      → Sends stream k.hd_info content
      → InFlight k j
      → (k.requests j.req).next ≡ null
      → wait_on_buff (disk answer stream (suc n)) (suc (suc (suc m))) j.bh k
        ≡ ok tt (finished stream (record k { interrupts = true }) j.req j.bh)
  unfolding wait_on_buff wait_unlocked
  wait_on_buff-InFlight m k j sends g last =
      let k1 = record k { interrupts = true } in
      let g1 = InFlight-interrupts k j true g in
      let held : ((k.buffers j.bh).b_lock == 0) ≡ false = ground arith in
      let held1 : (((midway stream k1 j.req j.bh).buffers j.bh).b_lock == 0) ≡ false =
        unfold arrived in ground arith in
      let k2 = finished stream k1 j.req j.bh in
      let f = finished-Finished stream content k1 j sends g1 in
      let still_on : record (midway stream k1 j.req j.bh) { interrupts = true }
          ≡ midway stream k1 j.req j.bh =
        unfold arrived in refl in
      let second : disk_interrupt answer stream (suc n)
            (record (midway stream k1 j.req j.bh) { interrupts = true })
          ≡ ok tt k2 =
        ap (disk_interrupt answer stream (suc n)) still_on
        ∙ second_interrupt answer ready stream (suc n) k1 j g1
        ∙ do_hd_request_idle answer n k2 (f.on ∙ last) in
      let free : ((k2.buffers j.bh).b_lock == 0) ≡ true = ground (arith, f.done.unlocked) in
      rw (held, first_interrupt answer ready stream (suc n) k1 j g1, held1, second, free) refl
