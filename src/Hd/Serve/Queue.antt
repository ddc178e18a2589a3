-- ===== src/Hd/Serve/Queue.antt =====
-- A queue of reads from the first command to the last interrupt.
use eg_gs.Base.{
  ℕ, suc, ◌≡◌, ◌≢◌, refl, ap, ◌/◌, ◌∙◌, sym, Option, List, [], ◌∷◌, Ram, arith, ◌<◌, ◌^◌, ◌==◌,
  ◌||◌, not, bit_and,
}
use eg_gs.Base.Bytes.{holds_below, holds_below_sound}
use eg_gs.Kernel.{Kernel, Ptr, null, inp, Io, Handler}
use eg_gs.Kernel.Result.{byte, weaken, Returns}
use eg_gs.Blk.{minor_of}
use eg_gs.Hd.{hd_status, hd_major, do_hd_request}
use eg_gs.Hd.Access.{Commanded, do_hd_request-read}
use eg_gs.Hd.Serve.{AlwaysReady, Job, Awaits, InFlight, Done, Finished}

abbrev pub All : (Job → Type 0) → List Job → Type 0
All P [] = Unit {0}
All P (j ∷ l) = P j × All P l

All-map :
    {P Q R : Job → Type 0} (l : List Job)
    → ((j : Job) → P j → Q j → R j)
    → All P l
    → All Q l
    → All R l
All-map [] f p q = tt
All-map (j ∷ l) f p q = (f j p.0 q.0, All-map l f p.1 q.1)

-- Two jobs have neither a slot nor a buffer in common.
abbrev pub Apart : Job → Job → Type 0
Apart j i = (i.req ≢ j.req) × (i.bh ≢ j.bh)

-- The requests from `p` on are those of the jobs, in order.
abbrev pub Queued : Kernel → List Job → Ptr → Type 0
Queued k [] p = p ≡ null
Queued k (j ∷ l) p = (p ≡ j.req) × Awaits k j × All (Apart j) l × Queued k l (k.requests j.req).next

-- All jobs are done and the queue is empty; buffers and slots of no job are as they were.
pub record AllDone (content : (drive lba : ℕ) → Ram ℕ) (k : Kernel) (l : List Job) (k' : Kernel)
    : Type 0 where
  pub done : All (Done content k k') l
  pub idle : (k'.blk_dev hd_major).current_request ≡ null
  pub other_buffers : (p : Ptr) → All (λ i. i.bh ≢ p) l → k'.buffers p ≡ k.buffers p
  pub other_requests : (p : Ptr) → All (λ i. i.req ≢ p) l → k'.requests p ≡ k.requests p

module _ (content : (drive lba : ℕ) → Ram ℕ) where
  Awaits-Finished :
      (k k' : Kernel) (j i : Job) → Apart j i → Finished content k j k' → Awaits k i → Awaits k' i
  Awaits-Finished k k' j i a f w =
      let slot = f.other_requests i.req a.0 in
      let buffer : k'.buffers (k.requests i.req).bh ≡ k.buffers (k.requests i.req).bh =
        rw (w.into) (f.other_buffers i.bh a.1) in
      ground (arith, slot, buffer, f.same_partitions, f.same_nr, f.same_info)

  pub Queued-Finished :
      (k k' : Kernel) (j : Job) (l : List Job) (p : Ptr)
      → All (Apart j) l
      → Finished content k j k'
      → Queued k l p
      → Queued k' l p
  Queued-Finished k k' j [] p a f q = q
  Queued-Finished k k' j (i ∷ l) p a f q = (
    q.0,
    Awaits-Finished k k' j i a.0 f q.1,
    q.2,
    Queued-Finished k k' j l (k'.requests i.req).next a.1 f (rw (f.other_requests i.req a.0.0) q.3),
  )

  -- What a job did stays as it was while the jobs behind it are done.
  Done-after :
      (k k2 k' : Kernel) (j i : Job)
      → Apart j i
      → Finished content k j k2
      → Done content k2 k' i
      → Done content k k' i
  Done-after k k2 k' j i a f d = record {
    bytes = λ q. rw⁻¹ (f.other_buffers i.bh a.1) (d.bytes q);
    valid = d.valid;
    unlocked = d.unlocked;
    slot = d.slot;
    same_dev = rw⁻¹ (f.other_buffers i.bh a.1) d.same_dev;
    same_blocknr = rw⁻¹ (f.other_buffers i.bh a.1) d.same_blocknr;
    same_count = rw⁻¹ (f.other_buffers i.bh a.1) d.same_count;
  }

  pub AllDone-after :
      (k k2 k' : Kernel) (j : Job) (l : List Job)
      → All (Apart j) l
      → Finished content k j k2
      → AllDone content k2 l k'
      → AllDone content k (j ∷ l) k'
  AllDone-after k k2 k' j l a f d =
      let kept = d.other_buffers j.bh (All-map l (λ i x y. x.1) a a) in
      let slot = d.other_requests j.req (All-map l (λ i x y. x.0) a a) in
      record {
        done = (
          record {
            bytes = λ q. rw kept (f.done.bytes q);
            valid = rw kept f.done.valid;
            unlocked = rw kept f.done.unlocked;
            slot = rw slot f.done.slot;
            same_dev = rw kept f.done.same_dev;
            same_blocknr = rw kept f.done.same_blocknr;
            same_count = rw kept f.done.same_count;
          },
          All-map l (λ i x y. Done-after k k2 k' j i x f y) a d.done,
        );
        idle = d.idle;
        other_buffers = λ p h. d.other_buffers p h.1 ∙ f.other_buffers p (λ e. h.0 (sym e));
        other_requests = λ p h. d.other_requests p h.1 ∙ f.other_requests p (λ e. h.0 (sym e));
      }

-- The same kernel but for the accesses made and the handler that waits.
abbrev pub restarted : Kernel → List Io → Option Handler → Kernel
restarted k io h = record k { io = io; irq14 = h }

Awaits-restarted :
    (k : Kernel) (j : Job) (io : List Io) (h : Option Handler)
    → Awaits k j
    → Awaits (restarted k io h) j
Awaits-restarted k j io h w = ground arith

-- A drive that is ready and in place, not busy and without an error can take a command.
accepts_command : (i : ℕ) → i < 2 ^ 8 → bit_and i 0xF1 ≡ 0x50 → bit_and i 0xC0 ≡ 0x40
unfolding holds_below
accepts_command i h e =
    let row =
      holds_below_sound (2 ^ 8) (λ i. not (bit_and i 0xF1 == 0x50) || bit_and i 0xC0 == 0x40) i refl
        h in
    ground (arith, e, row)

module _ (answer : List Io → (port : ℕ) → ℕ) (ready : AlwaysReady answer) (n : ℕ) where
  -- `do_hd_request` sends the command of the first job of the queue.
  pub do_hd_request-starts :
      (k : Kernel) (j : Job)
      → (k.blk_dev hd_major).current_request ≡ j.req
      → k.reset ≡ 0
      → k.recalibrate ≡ 0
      → Awaits k j
      → Returns
          (λ _ k'. (io : List Io) × (h : Option Handler) × (k' ≡ restarted k io h) × InFlight k' j)
          (do_hd_request answer (suc n) k)
  do_hd_request-starts k j is idle calibrated w =
      let run =
        do_hd_request-read answer n k j.req j.dev j.lba
          (accepts_command (byte (answer k.io hd_status)) (omega arith) (ready k.io)) idle
          calibrated (record { is = is; what = w.readable }) in
      weaken run (λ _ k' c. (k'.io, k'.irq14, c.rest, in_flight k' c))
    where
      in_flight :
          (k' : Kernel)
          → Commanded k (minor_of j.dev / 5) (k.requests j.req).nr_sectors j.lba k'
          → InFlight k' j
      in_flight k' c =
          let job : Awaits k' j = rw (c.rest) (Awaits-restarted k j k'.io k'.irq14 w) in
          let info : k'.hd_info ≡ k.hd_info = ap (λ k. k.hd_info) c.rest in
          record {
            job = job;
            is = ap (λ k. (k.blk_dev hd_major).current_request) c.rest ∙ is;
            waits = c.waits;
            sec = c.sec;
            low = c.low;
            high = c.high;
            drive_head = c.drive_head;
            io = inp hd_status ∷ k.io;
            sent = c.sent ∙ rw w.whole refl;
            selects = c.selects;
            block = rw info c.block;
          }
