-- ===== src/Buffer/Claim.antt =====
-- The end of `new_buff`: the buffer that was chosen gets a new block.
use eg_gs.Base.{ℕ, zero, suc, ◌+◌, ◌-◌, ◌%◌, ◌^◌, ◌<◌, ◌≡◌, ◌≢◌, refl, update, Ram, arith}
use eg_gs.Kernel.{Kernel, Ptr, null, BufferHead}
use eg_gs.Kernel.Result.{Returns, returns, with_buffer}
use eg_gs.Kernel.Device.{Device}
use eg_gs.Buffer.{claim_buff}
use eg_gs.Buffer.Queues.{hash_index}
use eg_gs.Buffer.Queues.Unlink.{unhashed, taken_off, remove_from_queues-unlinked}
use eg_gs.Buffer.Queues.Link.{put_first, put_last, insert_into_queues-linked}
use eg_gs.Buffer.Queues.Chains.{
  Chains, Listed, not_next, not_prev, unhashed-Chains, put_first-Chains,
}
use eg_gs.Buffer.Queues.Ring.{
  Ring, without, then_last, taken_off-Ring, taken_off-Ring_single, put_last-Ring,
  put_last-Ring_single, Ring-linked,
}
use eg_gs.Buffer.Queues.Same.{SameLists, SameLists-Chains, SameLists-Ring, SameLists-with_buffer}

-- The lists of the cache: a ring of `n` buffers, and the chains.
pub record Cache (k : Kernel) (n : ℕ) (nth : ℕ → Ptr) (stamp : Ram ℕ) (now : ℕ) : Type 0 where
  pub ring : Ring k n nth
  pub chains : Chains k null stamp now

-- The order of the free list once the buffer that was `j` steps behind the head has become the last.
abbrev pub requeued : (n j : ℕ) → (ℕ → Ptr) → ℕ → Ptr
requeued n j nth = then_last (n - 1) (without j nth) (nth j)

taken_off-Chains :
    {k : Kernel} {out : Ptr} {stamp : Ram ℕ} {now : ℕ} (bh : Ptr)
    → Chains k out stamp now
    → Chains (taken_off k bh) out stamp now
taken_off-Chains bh i = record {
  next_link = i.next_link;
  prev_link = i.prev_link;
  first = i.first;
  head = i.head;
  unlisted = i.unlisted;
  past = i.past;
  unique = i.unique;
}

put_last-Chains :
    {k : Kernel} {out : Ptr} {stamp : Ram ℕ} {now : ℕ} (bh : Ptr)
    → Chains k out stamp now
    → Chains (put_last k bh) out stamp now
put_last-Chains bh i = record {
  next_link = i.next_link;
  prev_link = i.prev_link;
  first = i.first;
  head = i.head;
  unlisted = i.unlisted;
  past = i.past;
  unique = i.unique;
}

unhashed-Ring :
    {k : Kernel} {n : ℕ} {nth : ℕ → Ptr} (bh : Ptr) → Ring k n nth → Ring (unhashed k bh) n nth
unhashed-Ring bh r = record {
  inhabited = r.inhabited;
  head = r.head;
  not_null = r.not_null;
  in_range = r.in_range;
  distinct = r.distinct;
  next = r.next;
  prev = r.prev;
}

put_first-Ring :
    {k : Kernel} {n : ℕ} {nth : ℕ → Ptr} (bh : Ptr) → Ring k n nth → Ring (put_first k bh) n nth
put_first-Ring bh r = record {
  inhabited = r.inhabited;
  head = r.head;
  not_null = r.not_null;
  in_range = r.in_range;
  distinct = r.distinct;
  next = r.next;
  prev = r.prev;
}

-- Taken off, and put last in a state with the same lists.
requeued-Ring :
    (k k' : Kernel) (n j : ℕ) (nth : ℕ → Ptr) {out : Ptr}
    → Ring k n nth
    → j < n
    → SameLists out (taken_off k (nth j)) k'
    → Ring (put_last k' (nth j)) n (requeued n j nth)
requeued-Ring k k' zero j nth r l s = absurd (omega arith)
requeued-Ring k k' (suc zero) zero nth r l s =
    put_last-Ring_single k' nth (SameLists-Ring s (taken_off-Ring_single k nth r))
requeued-Ring k k' (suc zero) (suc j) nth r l s = absurd (omega arith)
requeued-Ring k k' (suc (suc m)) j nth r l s =
    let shorter : suc (suc m) - 1 ≡ suc m = omega arith in
    let off = SameLists-Ring s (taken_off-Ring k (suc m) nth j r l (omega arith)) in
    rw shorter (
      put_last-Ring k' (suc m) (without j nth) (nth j) off (r.not_null j l)
        (ground (arith, r.in_range j l, s.number))
        (λ i h. ground (arith, r.distinct i j, r.distinct (i + 1) j)))

-- What the driver looks at has not changed.
pub record SameDriver (k k' : Kernel) : Type 0 where
  pub same_requests : k'.requests ≡ k.requests
  pub same_blk_dev : k'.blk_dev ≡ k.blk_dev
  pub same_info : k'.hd_info ≡ k.hd_info
  pub same_nr : k'.nr_hd ≡ k.nr_hd
  pub same_partitions : k'.partition_info ≡ k.partition_info
  pub same_reset : k'.reset ≡ k.reset
  pub same_recalibrate : k'.recalibrate ≡ k.recalibrate

-- What `claim_buff` leaves: the buffer `nth j` holds the block, clean and not up to date, for one
-- user; it is the first of its chain, if it has a device, and the last of the free list; and no other
-- buffer has changed its block or its users.
pub record Claimed (k : Kernel) (n j : ℕ) (nth : ℕ → Ptr) (stamp : Ram ℕ) (now dev block : ℕ)
    (k' : Kernel) : Type 0 where
  pub cache : Cache k' n (requeued n j nth) (update stamp (nth j) now) (now + 1)
  pub holds : ((k'.buffers (nth j)).b_dev ≡ dev) × ((k'.buffers (nth j)).b_blocknr ≡ block)
  pub fresh :
      ((k'.buffers (nth j)).b_count ≡ 1)
      × ((k'.buffers (nth j)).b_uptodate ≡ 0)
      × ((k'.buffers (nth j)).b_dirt ≡ 0)
  pub leads : dev ≢ 0 → k'.hash_table (hash_index dev block) ≡ nth j
  pub others :
      (p : Ptr)
      → p ≢ nth j
      → ((k'.buffers p).b_dev ≡ (k.buffers p).b_dev)
        × ((k'.buffers p).b_blocknr ≡ (k.buffers p).b_blocknr)
        × ((k'.buffers p).b_count ≡ (k.buffers p).b_count)
  pub same_lock : (k'.buffers (nth j)).b_lock ≡ (k.buffers (nth j)).b_lock
  pub same_driver : SameDriver k k'

abbrev readied : BufferHead → BufferHead
readied b = record b { b_count = 1; b_dirt = 0; b_uptodate = 0 }

abbrev named : (dev block : ℕ) → BufferHead → BufferHead
named dev block b = record b { b_dev = dev % 2 ^ 16; b_blocknr = block }

-- If the lists are in order, the device is below 2 ^ 16 and no buffer holds the block, then for the
-- buffer that is `j` steps behind the head of the free list `claim_buff` returns, with the lists in
-- order again: the buffer has become the last of the free list, whose order is otherwise the same, and
-- it holds the block, clean, not up to date and for one user; if the device is not 0 it is the first
-- of the chain of its block. No other buffer has changed its block or its users.
pub claim_buff-Claimed :
    (d : Device) (fuel dev block : ℕ) {k : Kernel} {n : ℕ} (j : ℕ) {nth : ℕ → Ptr} {stamp : Ram ℕ}
    {now : ℕ}
    → Cache k n nth stamp now
    → j < n
    → dev < 2 ^ 16
    → ((p : Ptr) → Listed k null p → (k.buffers p).b_dev ≡ dev → (k.buffers p).b_blocknr ≢ block)
    → Returns
        (λ _ k'. Claimed k n j nth stamp now dev block k')
        (claim_buff d fuel dev block (nth j) k)
unfolding claim_buff
claim_buff-Claimed d fuel dev block {k} {n} j {nth} {stamp} {now} c l small new =
    let bh = nth j in
    let there = c.ring.not_null j l in
    let own = c.ring.in_range j l in
    let k1 = with_buffer k bh readied in
    let s1 : SameLists null k k1 =
      SameLists-with_buffer k null bh readied (λ b. (refl, refl))
        (λ _ b. (refl, refl, refl, refl)) in
    let chains1 = SameLists-Chains s1 c.chains in
    let ring1 = SameLists-Ring s1 c.ring in
    let linked = Ring-linked ring1 j l in
    let k2 = taken_off (unhashed k1 bh) bh in
    let k3 = with_buffer k2 bh (named dev block) in
    let s3 : SameLists bh k2 k3 =
      SameLists-with_buffer k2 bh bh (named dev block) (λ b. (refl, refl)) (λ m. absurd (m refl)) in
    let k4 = put_first (put_last k3 bh) bh in
    let removed =
      remove_from_queues-unlinked k1 bh (not_next chains1 bh there own)
        (not_prev chains1 bh there own) linked.0 linked.1 in
    let inserted = insert_into_queues-linked k3 bh in
    let off =
      put_last-Chains bh
        (SameLists-Chains s3 (taken_off-Chains bh (unhashed-Chains chains1 bh there own))) in
    rw removed (
      rw inserted (
        returns (record {
          cache = record {
            ring =
                put_first-Ring bh
                  (requeued-Ring (unhashed k1 bh) k3 n j nth (unhashed-Ring bh ring1) l s3);
            chains = put_first-Chains bh off there own (λ p m e. ground (arith, new p));
          };
          holds = (ground arith, ground arith);
          fresh = (ground arith, ground arith, ground arith);
          leads = λ m. ground arith;
          others = λ p m. (ground arith, ground arith, ground arith);
          same_lock = ground arith;
          same_driver = record {
            same_requests = refl;
            same_blk_dev = refl;
            same_info = refl;
            same_nr = refl;
            same_partitions = refl;
            same_reset = refl;
            same_recalibrate = refl;
          };
        })))
