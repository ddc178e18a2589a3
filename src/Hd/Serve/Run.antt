-- ===== src/Hd/Serve/Run.antt =====
-- The interrupts of the disk, one after the other, until the queue is empty.
use eg_gs.Base.{
  ℕ, zero, suc, ◌*◌, ◌≡◌, refl, subst, sym, ◌∙◌, true, Option, List, [], ◌∷◌, Ram, arith, length,
  ◌==◌,
}
use eg_gs.Kernel.{Kernel, null, Io, Handler}
use eg_gs.Kernel.Result.{M, Void, ok, and_then, Returns, returns, weaken, Returns-then, ◌>>◌, skip}
use eg_gs.Hd.{hd_major, do_hd_request}
use eg_gs.Hd.Driver.{disk_interrupt}
use eg_gs.Hd.Serve.{AlwaysReady, Sends, Job, InFlight, Finished}
use eg_gs.Hd.Serve.Step.{finished, finished-Finished, first_interrupt, second_interrupt}
use eg_gs.Hd.Serve.Queue.{
  All, Apart, Queued, Queued-Finished, AllDone, AllDone-after, restarted, do_hd_request-starts,
}

module _ (answer : List Io → (port : ℕ) → ℕ) (stream : List Io → Ram ℕ) (fuel : ℕ) where
  -- So many interrupts 14.
  unfoldable pub interrupts : ℕ → M Void
  interrupts zero = skip
  interrupts (suc n) = let rest = interrupts n in disk_interrupt answer stream fuel >> rest

pub do_hd_request_idle :
    (answer : List Io → (port : ℕ) → ℕ) (n : ℕ) (k : Kernel)
    → (k.blk_dev hd_major).current_request ≡ null
    → do_hd_request answer (suc n) k ≡ ok tt k
unfolding do_hd_request
do_hd_request_idle answer n k e =
    let none_left : ((k.blk_dev hd_major).current_request == null) ≡ true = ground arith in
    rw none_left refl

module _ (content : (drive lba : ℕ) → Ram ℕ) where
  pub Finished-restarted :
      (k k' : Kernel) (j : Job) (io : List Io) (h : Option Handler)
      → Finished content k j k'
      → Finished content k j (restarted k' io h)
  Finished-restarted k k' j io h f = record {
    done = record {
      bytes = f.done.bytes;
      valid = f.done.valid;
      unlocked = f.done.unlocked;
      slot = f.done.slot;
      same_dev = f.done.same_dev;
      same_blocknr = f.done.same_blocknr;
      same_count = f.done.same_count;
    };
    on = f.on;
    other_buffers = f.other_buffers;
    other_requests = f.other_requests;
    same_info = f.same_info;
    same_nr = f.same_nr;
    same_partitions = f.same_partitions;
    same_reset = f.same_reset;
    same_recalibrate = f.same_recalibrate;
  }

module _ (answer : List Io → (port : ℕ) → ℕ) (stream : List Io → Ram ℕ)
    (content : (drive lba : ℕ) → Ram ℕ) (ready : AlwaysReady answer) (n : ℕ) where
  two_interrupts :
      (m : ℕ) (k : Kernel) (j : Job)
      → InFlight k j
      → interrupts answer stream (suc n) (suc (suc m)) k
        ≡ and_then
            (do_hd_request answer (suc n) (finished stream k j.req j.bh))
            (λ _. interrupts answer stream (suc n) m)
  unfolding interrupts
  two_interrupts m k j g =
      rw
        (
          first_interrupt answer ready stream (suc n) k j g,
          second_interrupt answer ready stream (suc n) k j g,
        )
        refl

  -- With a drive that at every poll is ready and reports no error (it may have data to transfer) and
  -- sends the sectors it is asked for, and with no reset and no recalibration due: if the driver has
  -- sent the command of a read of a block and a queue of such reads waits behind it, with different
  -- slots and different locked buffers, each of them of a block within its partition, on one of at
  -- most two drives, with 1 to 16 heads, 1 to 255 sectors on a track, a cylinder number below 2 ^ 16
  -- at the block and sector numbers below 2 ^ 32, then two interrupts for each of them return with
  -- every buffer up to date, unlocked and holding the two sectors of its block, with every slot free
  -- and no request left, and with all other buffers and slots as they were.
  pub interrupts-AllDone :
      (l : List Job) (j : Job) (k : Kernel)
      → Sends stream k.hd_info content
      → k.reset ≡ 0
      → k.recalibrate ≡ 0
      → InFlight k j
      → All (Apart j) l
      → Queued k l (k.requests j.req).next
      → Returns
          (λ _ k'. AllDone content k (j ∷ l) k')
          (interrupts answer stream (suc n) (2 * length (j ∷ l)) k)
  interrupts-AllDone [] j k sends idle calibrated g a q =
      let k2 = finished stream k j.req j.bh in
      let f = finished-Finished stream content k j sends g in
      let over = f.on ∙ q in
      rw (two_interrupts 0 k j g, do_hd_request_idle answer n k2 over)
        (unfold interrupts in
          returns (
            AllDone-after content k k2 k2 j [] tt f (record {
              done = tt;
              idle = over;
              other_buffers = λ p h. refl;
              other_requests = λ p h. refl;
            })))
  interrupts-AllDone (i ∷ l) j k sends idle calibrated g a q =
      let m = 2 * length (i ∷ l) in
      let two_more : 2 * length (j ∷ i ∷ l) ≡ suc (suc m) = omega arith in
      let k2 = finished stream k j.req j.bh in
      let f = finished-Finished stream content k j sends g in
      let waiting = Queued-Finished content k k2 j (i ∷ l) (k.requests j.req).next a f q in
      let run =
        do_hd_request-starts answer ready n k2 i (f.on ∙ q.0) (f.same_reset ∙ idle)
          (f.same_recalibrate ∙ calibrated) waiting.1 in
      rw (two_more, two_interrupts m k j g)
        (Returns-then (Returns (λ _ k'. AllDone content k (j ∷ i ∷ l) k'))
          (λ _. interrupts answer stream (suc n) m) run
          (λ _ k3 (io, h, e, g3).
            let f3 =
              subst (Finished content k j) (sym e) (Finished-restarted content k k2 j io h f) in
            let waiting3 = Queued-Finished content k k3 j (i ∷ l) (k.requests j.req).next a f3 q in
            weaken
              (interrupts-AllDone l i k3
                (subst (λ x. Sends stream x content) (sym f3.same_info) sends)
                (f3.same_reset ∙ idle) (f3.same_recalibrate ∙ calibrated) g3 q.2 waiting3.3)
              (λ _ k' d. AllDone-after content k k3 k' j (i ∷ l) a f3 d)))
