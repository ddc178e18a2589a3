-- ===== src/Buffer/Queues/Chains.antt =====
-- The chains of the hash table: every buffer with a device is on the chain of its block, once, and
-- no two buffers hold the same block.
use eg_gs.Base.{ℕ, ◌+◌, ◌<◌, ◌≤◌, ◌≡◌, ◌≢◌, update, Ram, arith}
use eg_gs.Kernel.{Kernel, Ptr, null, BufferHead}
use eg_gs.Buffer.Queues.{hash_index, nr_hash}
use eg_gs.Buffer.Queues.Unlink.{chain_of, unhashed}
use eg_gs.Buffer.Queues.Link.{put_first}

pub hash_index_lt : (dev block : ℕ) → hash_index dev block < nr_hash
unfolding hash_index
hash_index_lt dev block = omega arith

chain_of_lt : (b : BufferHead) → chain_of b < nr_hash
chain_of_lt b = hash_index_lt b.b_dev b.b_blocknr

-- A buffer that has a device, other than the one that is being moved.
abbrev pub Listed : Kernel → (out : Ptr) → Ptr → Type 0
Listed k out p = (p ≢ null) × (p ≢ out) × ((k.buffers p).b_dev ≢ 0) × (p ≤ k.nr_buffers)

-- The chains without `out`, which is a buffer that is being moved, or `null`. A buffer has a stamp from
-- the time when it was put on its chain, and newer buffers come first.
pub record Chains (k : Kernel) (out : Ptr) (stamp : Ram ℕ) (now : ℕ) : Type 0 where
  pub next_link :
      (p : Ptr)
      → Listed k out p
      → (k.buffers p).b_next ≢ null
      → Listed k out (k.buffers p).b_next
        × (chain_of (k.buffers (k.buffers p).b_next) ≡ chain_of (k.buffers p))
        × ((k.buffers (k.buffers p).b_next).b_prev ≡ p)
        × (stamp (k.buffers p).b_next < stamp p)
  pub prev_link :
      (p : Ptr)
      → Listed k out p
      → (k.buffers p).b_prev ≢ null
      → Listed k out (k.buffers p).b_prev
        × (chain_of (k.buffers (k.buffers p).b_prev) ≡ chain_of (k.buffers p))
        × ((k.buffers (k.buffers p).b_prev).b_next ≡ p)
  pub first :
      (p : Ptr)
      → Listed k out p
      → (k.buffers p).b_prev ≡ null
      → k.hash_table (chain_of (k.buffers p)) ≡ p
  pub head :
      (h : ℕ)
      → h < nr_hash
      → k.hash_table h ≢ null
      → Listed k out (k.hash_table h)
        × (chain_of (k.buffers (k.hash_table h)) ≡ h)
        × ((k.buffers (k.hash_table h)).b_prev ≡ null)
  pub unlisted :
      (p : Ptr)
      → p ≢ null
      → p ≢ out
      → p ≤ k.nr_buffers
      → (k.buffers p).b_dev ≡ 0
      → ((k.buffers p).b_next ≡ null) × ((k.buffers p).b_prev ≡ null)
  pub past : (p : Ptr) → Listed k out p → stamp p < now
  pub unique :
      (p q : Ptr)
      → Listed k out p
      → Listed k out q
      → (k.buffers p).b_dev ≡ (k.buffers q).b_dev
      → (k.buffers p).b_blocknr ≡ (k.buffers q).b_blocknr
      → p ≡ q

module _ {k : Kernel} {stamp : Ram ℕ} {now : ℕ} (i : Chains k null stamp now) (bh : Ptr)
    (there : bh ≢ null) (own : bh ≤ k.nr_buffers) where
  pub not_next : (k.buffers bh).b_next ≢ bh
  not_next = ground (arith, i.next_link bh, i.unlisted bh)

  pub not_prev : (k.buffers bh).b_prev ≢ bh
  not_prev = ground (arith, i.prev_link bh, i.next_link bh, i.unlisted bh)

  pub unhashed-Chains : Chains (unhashed k bh) bh stamp now
  unhashed-Chains = record {
    next_link = λ p l n. ground (
      arith,
      i.next_link p,
      i.next_link bh,
      i.next_link (k.buffers bh).b_prev,
      i.prev_link bh,
      i.prev_link p,
      i.unlisted bh,
    );
    prev_link = λ p l n.
        ground (arith, i.next_link p, i.next_link bh, i.prev_link bh, i.prev_link p, i.unlisted bh);
    first = λ p l e. ground (
      arith,
      i.first p,
      i.first bh,
      i.next_link bh,
      i.prev_link bh,
      i.unlisted bh,
      i.head (chain_of (k.buffers bh)) (chain_of_lt (k.buffers bh)),
    );
    head = λ h a n. ground (arith, i.head h a, i.next_link bh, i.prev_link bh, i.unlisted bh);
    unlisted =
        λ p n o m e. ground (arith, i.unlisted p, i.next_link bh, i.prev_link bh, i.unlisted bh);
    past = λ p l. i.past p (ground arith);
    unique = λ p q l m. i.unique p q (ground arith) (ground arith);
  }

-- A buffer outside the chains is put on the chain of its block, which no other buffer holds.
pub put_first-Chains :
    {k : Kernel} {stamp : Ram ℕ} {now : ℕ} (bh : Ptr)
    → Chains k bh stamp now
    → bh ≢ null
    → bh ≤ k.nr_buffers
    → ((p : Ptr)
        → Listed k bh p
        → (k.buffers p).b_dev ≡ (k.buffers bh).b_dev
        → (k.buffers p).b_blocknr ≢ (k.buffers bh).b_blocknr)
    → Chains (put_first k bh) null (update stamp bh now) (now + 1)
put_first-Chains {k} {stamp} {now} bh i there own new = record {
  next_link = λ p l n. ground (
    arith,
    i.next_link p,
    i.head (chain_of (k.buffers bh)) (chain_of_lt (k.buffers bh)),
    i.past p,
    i.past (k.hash_table (chain_of (k.buffers bh))),
  );
  prev_link = λ p l n.
      ground (arith, i.prev_link p, i.head (chain_of (k.buffers bh)) (chain_of_lt (k.buffers bh)));
  first = λ p l e.
      ground (arith, i.first p, i.head (chain_of (k.buffers bh)) (chain_of_lt (k.buffers bh)));
  head = λ h a n.
      ground (arith, i.head h a, i.head (chain_of (k.buffers bh)) (chain_of_lt (k.buffers bh)));
  unlisted = λ p n o m e.
      ground (arith, i.unlisted p, i.head (chain_of (k.buffers bh)) (chain_of_lt (k.buffers bh)));
  past = λ p l. ground (arith, i.past p);
  unique = λ p q l m d b. ground (arith, i.unique p q, new p, new q);
}
