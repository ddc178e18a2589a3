-- ===== src/Hd/Fetch/Read.antt =====
-- What `ll_rw_block` and the wait for it do together, and what `read_buff` does with them.
use eg_gs.Base.{
  ℕ, suc, ◌/◌, ◌<◌, ◌≡◌, ◌≢◌, Option, subst, refl, sym, ap, ◌∙◌, none, true, false, List, Ram,
  arith, ◌==◌, if◌then◌else◌,
}
use eg_gs.Kernel.{Kernel, Ptr, null, Io, Handler}
use eg_gs.Kernel.Device.{Device}
use eg_gs.Kernel.Result.{
  ok, M, and_then_assoc, buffer, pure, ◌>>=◌, Returns, returns, Returns-then, ◌>>◌,
}
use eg_gs.Blk.{minor_of, cmd_read, ll_rw_block}
use eg_gs.Blk.Lock.{wait_on_buff}
use eg_gs.Buffer.{read_buff, put_buff, get_buff}
use eg_gs.Buffer.Hit.{Present, held, get_buff-hit}
use eg_gs.Hd.{hd_major}
use eg_gs.Hd.Driver.{disk}
use eg_gs.Hd.Serve.{AlwaysReady, Sends, Job, Finished, block_of}
use eg_gs.Hd.Serve.Step.{finished, finished-Finished}
use eg_gs.Hd.Serve.Queue.{do_hd_request-starts, restarted}
use eg_gs.Hd.Fetch.{Fetchable, launched, fetch_job, sector_of}
use eg_gs.Hd.Fetch.Launch.{launched-Awaits, ll_rw_block-launched}
use eg_gs.Hd.Fetch.Wait.{wait_on_buff-InFlight, InFlight-interrupts}

-- The buffer holds its block of the disk, is up to date and not locked, with the same block and
-- users; the slot is free, the disk idle, and no other buffer or slot has changed.
pub record Fetched (content : (drive lba : ℕ) → Ram ℕ) (k : Kernel) (bh req : Ptr) (k' : Kernel)
    : Type 0 where
  pub bytes :
      (q : ℕ)
      → (k'.buffers bh).b_data q
        ≡ block_of content
            (minor_of (k.buffers bh).b_dev / 5)
            (sector_of k bh)
            (k.buffers bh).b_data
            q
  pub valid : (k'.buffers bh).b_uptodate ≡ 1
  pub unlocked : (k'.buffers bh).b_lock ≡ 0
  pub same_dev : (k'.buffers bh).b_dev ≡ (k.buffers bh).b_dev
  pub same_blocknr : (k'.buffers bh).b_blocknr ≡ (k.buffers bh).b_blocknr
  pub same_count : (k'.buffers bh).b_count ≡ (k.buffers bh).b_count
  pub slot : (k'.requests req).dev ≡ none
  pub idle : (k'.blk_dev hd_major).current_request ≡ null
  pub other_buffers : (p : Ptr) → p ≢ bh → k'.buffers p ≡ k.buffers p
  pub other_requests : (p : Ptr) → p ≢ req → k'.requests p ≡ k.requests p

Finished-Fetched :
    (content : (drive lba : ℕ) → Ram ℕ) (k k' : Kernel) (bh req : Ptr)
    → Fetchable k bh req
    → Finished content (launched k bh req) (fetch_job k bh req) k'
    → Fetched content k bh req k'
unfolding launched
Finished-Fetched content k k' bh req f g = record {
  bytes = λ q. ground (arith, g.done.bytes q);
  valid = g.done.valid;
  unlocked = g.done.unlocked;
  same_dev = ground arith;
  same_blocknr = ground arith;
  same_count = ground arith;
  slot = g.done.slot;
  idle = ground arith;
  other_buffers = λ p h. ground (arith, g.other_buffers p h);
  other_requests = λ p h. ground (arith, g.other_requests p h);
}

-- The accesses before a job do not matter to what it has done.
Finished-since :
    (content : (drive lba : ℕ) → Ram ℕ) (k k' : Kernel) (j : Job) (io : List Io)
    (h : Option Handler)
    → Finished content (record (restarted k io h) { interrupts = true }) j k'
    → Finished content k j k'
Finished-since content k k' j io h f = record {
  done = record {
    bytes = f.done.bytes;
    valid = f.done.valid;
    unlocked = f.done.unlocked;
    slot = f.done.slot;
    same_dev = f.done.same_dev;
    same_blocknr = f.done.same_blocknr;
    same_count = f.done.same_count;
  };
  on = f.on;
  other_buffers = f.other_buffers;
  other_requests = f.other_requests;
  same_info = f.same_info;
  same_nr = f.same_nr;
  same_partitions = f.same_partitions;
  same_reset = f.same_reset;
  same_recalibrate = f.same_recalibrate;
}

module _ (answer : List Io → (port : ℕ) → ℕ) (stream : List Io → Ram ℕ)
    (content : (drive lba : ℕ) → Ram ℕ) (ready : AlwaysReady answer) (n : ℕ) where
  -- On an idle disk that is ready and without an error at every poll and sends what it is asked for, with a request slot free, no
  -- reset and no recalibration due, and an address that has room for the disk's heads and sectors: a read by `ll_rw_block` of a block of a partition into a buffer that is not up
  -- to date, and the wait for the buffer, return with three rounds or more. The buffer then holds the
  -- two sectors of its block, is up to date and unlocked, and has the same users; the request's slot
  -- is free, the disk is idle again, and all other buffers and slots are as they were.
  pub fetch :
      (m : ℕ) (k : Kernel) (bh req : Ptr)
      → Sends stream k.hd_info content
      → k.reset ≡ 0
      → k.recalibrate ≡ 0
      → Fetchable k bh req
      → Returns
          (λ _ k'. Fetched content k bh req k')
          ((ll_rw_block (disk answer stream (suc n)) (suc (suc (suc m))) cmd_read bh
              >> wait_on_buff (disk answer stream (suc n)) (suc (suc (suc m))) bh)
            k)
  fetch m k bh req sends calm calibrated f =
      let d = disk answer stream (suc n) in
      let k1 = launched k bh req in
      let j = fetch_job k bh req in
      let run =
        do_hd_request-starts answer ready n k1 j (unfold launched in refl) (unfold launched in calm)
          (unfold launched in calibrated) (launched-Awaits k bh req f) in
      rw (ll_rw_block-launched d (suc (suc m)) k bh req f) (
        Returns-then (Returns (λ _ k'. Fetched content k bh req k'))
          (λ _. wait_on_buff d (suc (suc (suc m))) bh) run
          (λ _ k3 (io, h, e, g3).
            let info : k3.hd_info ≡ k.hd_info = ap (λ k. k.hd_info) e ∙ unfold launched in refl in
            let sends3 = subst (λ x. Sends stream x content) (sym info) sends in
            let last : (k3.requests req).next ≡ null =
              ap (λ k. (k.requests req).next) e ∙ unfold launched in ground arith in
            let k4 = finished stream (record k3 { interrupts = true }) req bh in
            let g4 = InFlight-interrupts k3 j true g3 in
            let f4 : Finished content k1 j k4 = Finished-since content k1 k4 j io h (
              subst (λ x. Finished content (record x { interrupts = true }) j k4) e
                (finished-Finished stream content (record k3 { interrupts = true }) j sends3 g4)) in
            rw (wait_on_buff-InFlight answer stream content ready n m k3 j sends3 g3 last)
              (returns (Finished-Fetched content k k4 bh req f f4))))

  held-Fetchable : (k : Kernel) (bh req : Ptr) → Fetchable k bh req → Fetchable (held k bh) bh req
  held-Fetchable k bh req f = ground arith

  -- `read_buff` once it has a buffer that is not up to date.
  pub read_buff-from :
      (m : ℕ) (k k1 : Kernel) (dev block : ℕ) (bh req : Ptr)
      → Sends stream k1.hd_info content
      → k1.reset ≡ 0
      → k1.recalibrate ≡ 0
      → get_buff (disk answer stream (suc n)) (suc (suc (suc m))) dev block k ≡ ok bh k1
      → Fetchable k1 bh req
      → Returns
          (λ p k'. (p ≡ bh) × Fetched content k1 bh req k')
          (read_buff (disk answer stream (suc n)) (suc (suc (suc m))) dev block k)
  unfolding read_buff
  read_buff-from m k k1 dev block bh req sends calm calibrated gets f =
      let d = disk answer stream (suc n) in
      let there : (bh == null) ≡ false = ground (arith, f.real) in
      let stale : ((k1.buffers bh).b_uptodate == 0) ≡ true = ground (arith, f.stale) in
      rw (gets, there, stale)
        (rw⁻¹
          (and_then_assoc (ll_rw_block d (suc (suc (suc m))) cmd_read bh k1)
            (λ _. wait_on_buff d (suc (suc (suc m))) bh) (λ _. finish d))
          (Returns-then (Returns (λ p k'. (p ≡ bh) × Fetched content k1 bh req k')) (λ _. finish d)
            (fetch m k1 bh req sends calm calibrated f)
            (λ _ k' g.
              let valid : ((k'.buffers bh).b_uptodate == 0) ≡ false = ground (arith, g.valid) in
              rw valid (returns (refl, g)))))
    where
      finish : Device → M Ptr
      finish d = do
        b ← buffer bh
        if b.b_uptodate == 0 then put_buff d (suc (suc (suc m))) bh >> pure null else pure bh

  -- The disk's driver is installed, with at most two drives, and idle, a request slot is free, and
  -- neither a reset nor a recalibration is due; at every poll the drive is ready and reports no error
  -- (it may have data to transfer), and it sends the sectors it is asked for; it has 1 to 16 heads, 1
  -- to 255 sectors on a track, and a cylinder number below 2 ^ 16 at the block. Then for a block of a
  -- partition of that disk, with sector numbers below 2 ^ 32, whose buffer is in the cache, not
  -- locked, not up to date and used by fewer than 255: if the rounds are at least three and enough to
  -- find it, `read_buff` returns that buffer with one user more. It then holds the two sectors of its
  -- block, up to date and unlocked; the disk is idle again, and all other buffers and slots are as
  -- they were.
  pub read_buff-Fetched :
      (m : ℕ) (k : Kernel) (dev block steps : ℕ) (bh req : Ptr)
      → Sends stream k.hd_info content
      → k.reset ≡ 0
      → k.recalibrate ≡ 0
      → Present k dev block bh steps
      → steps < suc (suc (suc m))
      → Fetchable k bh req
      → Returns
          (λ p k'. (p ≡ bh) × Fetched content (held k bh) bh req k')
          (read_buff (disk answer stream (suc n)) (suc (suc (suc m))) dev block k)
  read_buff-Fetched m k dev block steps bh req sends calm calibrated here enough f =
      read_buff-from m k (held k bh) dev block bh req sends calm calibrated
        (get_buff-hit (disk answer stream (suc n)) (suc (suc (suc m))) here enough)
        (held-Fetchable k bh req f)
