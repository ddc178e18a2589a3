-- ===== src/Hd/Serve/Step.antt =====
-- A read from the command to the last interrupt: `read_intr` runs twice, for the two sectors of a
-- block, and ends the request.
use eg_gs.Base.{
  ◌||◌, ◌≤◌, ◌∙◌, subst, ap, none, leb, ◌&&◌, update, if◌then◌else◌, ℕ, ◌+◌, ◌-◌, ◌/◌, ◌%◌, ◌^◌,
  ◌≡◌, ◌≢◌, refl, true, false, some, List, ◌∷◌, Ram, arith, ltb, ◌==◌,
}
use eg_gs.Kernel.{Kernel, Ptr, null, read_intr, Io, inp, inp_words}
use eg_gs.Kernel.Result.{ok, byte, with_buffer, with_request, ◌>>◌, modify}
use eg_gs.Blk.Lock.{unlock_buff}
use eg_gs.Blk.{minor_of}
use eg_gs.Hd.{in_progress, hd_status, hd_data, hd_major, win_result, end_request, do_hd_request}
use eg_gs.Hd.Interrupts.{port_read, on_read, run_handler}
use eg_gs.Hd.Driver.{disk_interrupt, run_installed}
use eg_gs.Hd.Serve.{AlwaysReady, Sends, Job, InFlight, Finished}

module _ (stream : List Io → Ram ℕ) where
  -- The state after a sector has come in for the request `cur`, which is for the buffer `bh`.
  unfoldable pub arrived : Kernel → (cur bh : Ptr) → Kernel
  arrived k cur bh =
      let r = k.requests cur in
      let io = inp hd_status ∷ k.io in
      record k {
        buffers = update k.buffers bh (record (k.buffers bh) {
          b_data = λ q.
              if leb r.buffer q && ltb q (r.buffer + 512)
              then byte (stream io (q - r.buffer))
              else (k.buffers bh).b_data q;
        });
        requests = update k.requests cur (record r {
          errors = 0;
          buffer = r.buffer + 512;
          sector = (r.sector + 1) % 2 ^ 32;
          nr_sectors = (r.nr_sectors + 2 ^ 32 - 1) % 2 ^ 32;
        });
        io = inp_words hd_data 256 ∷ io;
      }

-- The state after the request `cur`, for the buffer `bh`, has been ended with success.
unfoldable pub ended : Kernel → (cur bh : Ptr) → Kernel
ended k cur bh =
    let k = with_buffer k bh (λ b. record b { b_uptodate = 1 }) in
    let k = with_buffer k bh (λ b. record b { b_lock = 0 }) in
    let k = with_request k cur (λ r. record r { dev = none }) in
    record k {
      blk_dev =
          update k.blk_dev hd_major
            (record (k.blk_dev hd_major) { current_request = (k.requests cur).next });
    }

pub in_progress-ok :
    (k : Kernel) (cur : Ptr)
    → (k.blk_dev hd_major).current_request ≡ cur
    → cur ≢ null
    → in_progress k ≡ ok cur k
unfolding in_progress
in_progress-ok k cur e h = let there : (cur == null) ≡ false = ground arith in rw (e, there) refl

end_request-ended :
    (k : Kernel) (cur bh : Ptr)
    → (k.blk_dev hd_major).current_request ≡ cur
    → cur ≢ null
    → (k.requests cur).bh ≡ bh
    → bh ≢ null
    → end_request 1 k ≡ ok tt (ended k cur bh)
unfolding end_request ended unlock_buff
end_request-ended k cur bh e some_request into real =
    let there : ((k.requests cur).bh == null) ≡ false = ground arith in
    subst (λ b. end_request 1 k ≡ ok tt (ended k cur b)) into
      (rw (in_progress-ok k cur e some_request, there) refl)

module _ (answer : List Io → (port : ℕ) → ℕ) (ready : AlwaysReady answer) where
  win_result-ok :
      (k : Kernel) → win_result answer k ≡ ok false (record k { io = inp hd_status ∷ k.io })
  unfolding win_result
  win_result-ok k = rw (ready k.io) refl

  module _ (stream : List Io → Ram ℕ) (fuel : ℕ) where
    on_read-arrived :
        (k : Kernel) (cur bh : Ptr)
        → (k.blk_dev hd_major).current_request ≡ cur
        → cur ≢ null
        → (k.requests cur).bh ≡ bh
        → bh ≢ null
        → (k.requests cur).buffer + 512 ≤ 1024
        → on_read answer stream fuel k
          ≡ (if ((arrived stream k cur bh).requests cur).nr_sectors == 0
                then end_request 1 >> do_hd_request answer fuel
                else modify (λ k. record k { irq14 = some read_intr }))
              (arrived stream k cur bh)
    unfolding on_read port_read arrived
    on_read-arrived k cur bh e some_request into real fits =
        let polled = record k { io = inp hd_status ∷ k.io } in
        let inside : ((k.requests cur).bh == null || ltb 1024 ((k.requests cur).buffer + 512))
            ≡ false =
          ground (arith, into, real, fits) in
        subst
          (λ b.
            on_read answer stream fuel k
            ≡ (if ((arrived stream k cur b).requests cur).nr_sectors == 0
                  then end_request 1 >> do_hd_request answer fuel
                  else modify (λ k. record k { irq14 = some read_intr }))
                (arrived stream k cur b))
          into (rw (win_result-ok k, in_progress-ok polled cur e some_request, inside) refl)

module _ (stream : List Io → Ram ℕ) where
  -- After the first interrupt, and after the second one up to the next request.
  abbrev pub midway : Kernel → (cur bh : Ptr) → Kernel
  midway k cur bh = record (arrived stream k cur bh) { irq14 = some read_intr }

  abbrev pub finished : Kernel → (cur bh : Ptr) → Kernel
  finished k cur bh = ended (arrived stream (midway k cur bh) cur bh) cur bh

  -- What the two transfers of a job bring.
  sent_first :
      (content : (drive lba : ℕ) → Ram ℕ) (k : Kernel) (j : Job)
      → Sends stream k.hd_info content
      → InFlight k j
      → (p : ℕ) → stream (inp hd_status ∷ k.io) p ≡ content (minor_of j.dev / 5) j.lba p
  sent_first content k j s g p =
      ap (λ io. stream (inp hd_status ∷ io) p) g.sent
      ∙ s.first 2 g.sec g.low g.high g.drive_head p g.io
      ∙ rw (g.selects, g.block) refl

  sent_second :
      (content : (drive lba : ℕ) → Ram ℕ) (k : Kernel) (j : Job)
      → Sends stream k.hd_info content
      → InFlight k j
      → (p : ℕ)
      → stream (inp hd_status ∷ inp_words hd_data 256 ∷ inp hd_status ∷ k.io) p
        ≡ content (minor_of j.dev / 5) (j.lba + 1) p
  sent_second content k j s g p =
      ap (λ io. stream (inp hd_status ∷ inp_words hd_data 256 ∷ inp hd_status ∷ io) p) g.sent
      ∙ s.second 2 g.sec g.low g.high g.drive_head p g.io
      ∙ rw (g.selects, g.block) refl

  pub finished-Finished :
      (content : (drive lba : ℕ) → Ram ℕ) (k : Kernel) (j : Job)
      → Sends stream k.hd_info content
      → InFlight k j
      → Finished content k j (finished k j.req j.bh)
  unfolding arrived ended
  finished-Finished content k j s g = record {
    done = record {
      bytes = λ q.
          ground
            (arith, g.start, sent_first content k j s g q, sent_second content k j s g (q - 512));
      valid = ground arith;
      unlocked = ground arith;
      slot = ground arith;
      same_dev = ground arith;
      same_blocknr = ground arith;
      same_count = ground arith;
    };
    on = ground arith;
    other_buffers = λ p h. ground arith;
    other_requests = λ p h. ground arith;
    same_info = refl;
    same_nr = refl;
    same_partitions = refl;
    same_reset = refl;
    same_recalibrate = refl;
  }

module _ (answer : List Io → (port : ℕ) → ℕ) (ready : AlwaysReady answer) (stream : List Io → Ram ℕ)
    (fuel : ℕ) where
  runs_on_read :
      (k : Kernel)
      → k.irq14 ≡ some read_intr
      → disk_interrupt answer stream fuel k ≡ on_read answer stream fuel k
  unfolding disk_interrupt run_installed run_handler
  runs_on_read k e = ap (λ h. run_installed answer stream fuel h k) e

  pub first_interrupt :
      (k : Kernel) (j : Job)
      → InFlight k j
      → disk_interrupt answer stream fuel k ≡ ok tt (midway stream k j.req j.bh)
  first_interrupt k j g =
      let more : (((arrived stream k j.req j.bh).requests j.req).nr_sectors == 0) ≡ false =
        unfold arrived in ground (arith, g.whole) in
      rw
        (
          runs_on_read k g.waits,
          on_read-arrived answer ready stream fuel k j.req j.bh g.is g.readable.some_request g.into
              g.real (omega (arith, g.start)),
          more,
        )
        refl

  pub second_interrupt :
      (k : Kernel) (j : Job)
      → InFlight k j
      → disk_interrupt answer stream fuel (midway stream k j.req j.bh)
        ≡ do_hd_request answer fuel (finished stream k j.req j.bh)
  unfolding arrived
  second_interrupt k j g =
      let m = midway stream k j.req j.bh in
      let n = arrived stream m j.req j.bh in
      let into : (m.requests j.req).bh ≡ j.bh = ground (arith, g.into) in
      let fits : (m.requests j.req).buffer + 512 ≤ 1024 = ground (arith, g.start) in
      let all : ((n.requests j.req).nr_sectors == 0) ≡ true = ground (arith, g.whole) in
      let into_last : (n.requests j.req).bh ≡ j.bh = ground (arith, g.into) in
      rw
        (
          runs_on_read m refl,
          on_read-arrived answer ready stream fuel m j.req j.bh g.is g.readable.some_request into
              g.real fits,
          all,
          end_request-ended n j.req j.bh g.is g.readable.some_request into_last g.real,
        )
        refl
