-- ===== src/Buffer/Queues/Same.antt =====
-- States with the same lists: what holds of the chains and of the ring in the one holds in the other.
use eg_gs.Base.{ℕ, ◌≡◌, ◌≢◌, refl, ap, ◌∙◌, sym, Ram, arith}
use eg_gs.Kernel.{Kernel, Ptr, null, BufferHead}
use eg_gs.Kernel.Result.{with_buffer}
use eg_gs.Kernel.Device.{Quiet}
use eg_gs.Buffer.Queues.Unlink.{chain_of}
use eg_gs.Buffer.Queues.Chains.{Chains, Listed}
use eg_gs.Buffer.Queues.Ring.{Ring}

-- The block and the chain of each buffer but `out`, which is off the chains, and the free list.
pub record SameLists (out : Ptr) (k k' : Kernel) : Type 0 where
  pub dev : (p : Ptr) → p ≢ out → (k'.buffers p).b_dev ≡ (k.buffers p).b_dev
  pub block : (p : Ptr) → p ≢ out → (k'.buffers p).b_blocknr ≡ (k.buffers p).b_blocknr
  pub next : (p : Ptr) → p ≢ out → (k'.buffers p).b_next ≡ (k.buffers p).b_next
  pub prev : (p : Ptr) → p ≢ out → (k'.buffers p).b_prev ≡ (k.buffers p).b_prev
  pub next_free : (p : Ptr) → (k'.buffers p).b_next_free ≡ (k.buffers p).b_next_free
  pub prev_free : (p : Ptr) → (k'.buffers p).b_prev_free ≡ (k.buffers p).b_prev_free
  pub hash : (h : ℕ) → k'.hash_table h ≡ k.hash_table h
  pub free : k'.free_list ≡ k.free_list
  pub number : k'.nr_buffers ≡ k.nr_buffers

-- The buffers and the heads of the lists are the same.
pub SameLists-equal :
    (out : Ptr) (k k' : Kernel)
    → k'.buffers ≡ k.buffers
    → k'.hash_table ≡ k.hash_table
    → k'.free_list ≡ k.free_list
    → k'.nr_buffers ≡ k.nr_buffers
    → SameLists out k k'
SameLists-equal out k k' buffers hash free number = record {
  dev = λ p n. ap (λ (bs : Ram BufferHead). (bs p).b_dev) buffers;
  block = λ p n. ap (λ (bs : Ram BufferHead). (bs p).b_blocknr) buffers;
  next = λ p n. ap (λ (bs : Ram BufferHead). (bs p).b_next) buffers;
  prev = λ p n. ap (λ (bs : Ram BufferHead). (bs p).b_prev) buffers;
  next_free = λ p. ap (λ (bs : Ram BufferHead). (bs p).b_next_free) buffers;
  prev_free = λ p. ap (λ (bs : Ram BufferHead). (bs p).b_prev_free) buffers;
  hash = λ h. ap (λ (t : Ram Ptr). t h) hash;
  free = free;
  number = number;
}

pub SameLists-refl : (out : Ptr) (k : Kernel) → SameLists out k k
SameLists-refl out k = record {
  dev = λ p n. refl;
  block = λ p n. refl;
  next = λ p n. refl;
  prev = λ p n. refl;
  next_free = λ p. refl;
  prev_free = λ p. refl;
  hash = λ h. refl;
  free = refl;
  number = refl;
}

pub SameLists-trans :
    {out : Ptr} {a b c : Kernel} → SameLists out a b → SameLists out b c → SameLists out a c
SameLists-trans s t = record {
  dev = λ p n. t.dev p n ∙ s.dev p n;
  block = λ p n. t.block p n ∙ s.block p n;
  next = λ p n. t.next p n ∙ s.next p n;
  prev = λ p n. t.prev p n ∙ s.prev p n;
  next_free = λ p. t.next_free p ∙ s.next_free p;
  prev_free = λ p. t.prev_free p ∙ s.prev_free p;
  hash = λ h. t.hash h ∙ s.hash h;
  free = t.free ∙ s.free;
  number = t.number ∙ s.number;
}

-- A buffer's own fields but for its block and its links.
pub SameLists-with_buffer :
    (k : Kernel) (out bh : Ptr) (f : BufferHead → BufferHead)
    → ((b : BufferHead) → ((f b).b_next_free ≡ b.b_next_free) × ((f b).b_prev_free ≡ b.b_prev_free))
    → (bh ≢ out
        → (b : BufferHead)
        → ((f b).b_dev ≡ b.b_dev)
          × ((f b).b_blocknr ≡ b.b_blocknr)
          × ((f b).b_next ≡ b.b_next)
          × ((f b).b_prev ≡ b.b_prev))
    → SameLists out k (with_buffer k bh f)
SameLists-with_buffer k out bh f free own = record {
  dev = λ p n. ground (arith, λ (m : bh ≢ out). own m (k.buffers bh));
  block = λ p n. ground (arith, λ (m : bh ≢ out). own m (k.buffers bh));
  next = λ p n. ground (arith, λ (m : bh ≢ out). own m (k.buffers bh));
  prev = λ p n. ground (arith, λ (m : bh ≢ out). own m (k.buffers bh));
  next_free = λ p. ground (arith, free (k.buffers bh));
  prev_free = λ p. ground (arith, free (k.buffers bh));
  hash = λ h. refl;
  free = refl;
  number = refl;
}

-- A driver changes no list.
pub Quiet-SameLists : {k k' : Kernel} → Quiet k k' → SameLists null k k'
Quiet-SameLists q = record {
  dev = λ p n. (q.heads p).same_dev;
  block = λ p n. (q.heads p).same_blocknr;
  next = λ p n. (q.heads p).same_next;
  prev = λ p n. (q.heads p).same_prev;
  next_free = λ p. (q.heads p).same_next_free;
  prev_free = λ p. (q.heads p).same_prev_free;
  hash = λ h. ap (λ (t : Ram Ptr). t h) q.same_hash;
  free = q.same_free;
  number = q.same_number;
}

pub SameLists-Ring :
    {out : Ptr} {k k' : Kernel} {n : ℕ} {nth : ℕ → Ptr}
    → SameLists out k k'
    → Ring k n nth
    → Ring k' n nth
SameLists-Ring s r = record {
  inhabited = r.inhabited;
  head = s.free ∙ r.head;
  not_null = r.not_null;
  in_range = λ i l. ground (arith, r.in_range i, s.number);
  distinct = r.distinct;
  next = λ i l. s.next_free (_) ∙ r.next i l;
  prev = λ i l. s.prev_free (_) ∙ r.prev i l;
}

module _ {out : Ptr} {k k' : Kernel} (s : SameLists out k k') where
  same_chain : (p : Ptr) → p ≢ out → chain_of (k'.buffers p) ≡ chain_of (k.buffers p)
  same_chain p n = rw (s.dev p n, s.block p n) refl

  Listed-same : (p : Ptr) → Listed k out p → Listed k' out p
  Listed-same p (n, o, d, m) = (n, o, ground (arith, s.dev p o), ground (arith, s.number))

  same-Listed : (p : Ptr) → Listed k' out p → Listed k out p
  same-Listed p (n, o, d, m) = (n, o, ground (arith, s.dev p o), ground (arith, s.number))

  pub SameLists-Chains :
      {stamp : Ram ℕ} {now : ℕ} → Chains k out stamp now → Chains k' out stamp now
  SameLists-Chains i = record {
    next_link = λ p l n.
        let q = (k.buffers p).b_next in
        let (listed, chain, back, newer) =
          i.next_link p (same-Listed p l) (ground (arith, s.next p l.1)) in
        rw (s.next p l.1) (
          Listed-same q listed,
          same_chain q listed.1 ∙ chain ∙ sym (same_chain p l.1),
          s.prev q listed.1 ∙ back,
          newer,
        );
    prev_link = λ p l n.
        let q = (k.buffers p).b_prev in
        let (listed, chain, forth) =
          i.prev_link p (same-Listed p l) (ground (arith, s.prev p l.1)) in
        rw (s.prev p l.1) (
          Listed-same q listed,
          same_chain q listed.1 ∙ chain ∙ sym (same_chain p l.1),
          s.next q listed.1 ∙ forth,
        );
    first = λ p l e.
        rw (same_chain p l.1)
          (s.hash (chain_of (k.buffers p)) ∙ i.first p (same-Listed p l) (sym (s.prev p l.1) ∙ e));
    head = λ h a n.
        let q = k.hash_table h in
        let (listed, chain, top) = i.head h a (ground (arith, s.hash h)) in
        rw (s.hash h)
          (Listed-same q listed, same_chain q listed.1 ∙ chain, s.prev q listed.1 ∙ top);
    unlisted = λ p n o m e. ground (arith, s.number, i.unlisted p, s.dev p, s.next p, s.prev p);
    past = λ p l. i.past p (same-Listed p l);
    unique = λ p q l m d b.
        i.unique p q (same-Listed p l) (same-Listed q m) (sym (s.dev p l.1) ∙ d ∙ s.dev q m.1)
          (sym (s.block p l.1) ∙ b ∙ s.block q m.1);
  }
