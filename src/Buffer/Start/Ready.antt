-- ===== src/Buffer/Start/Ready.antt =====
-- After `init_buff` the lists of the cache are in order, and every buffer is free.
use eg_gs.Base.{
  ℕ, zero, suc, ◌+◌, ◌-◌, ◌*◌, ◌%◌, ◌^◌, ◌<◌, ◌≤◌, ◌≡◌, refl, sym, Bool-cases, inl, inr, Ram,
  update, arith, leb, if◌then◌else◌,
}
use eg_gs.Kernel.{Kernel, Ptr, null, BufferHead}
use eg_gs.Kernel.Result.{Returns, returns, Returns-then, weaken}
use eg_gs.Buffer.Claim.{Cache}
use eg_gs.Buffer.Queues.{nr_hash}
use eg_gs.Buffer.Queues.Ring.{Ring}
use eg_gs.Buffer.Queues.Chains.{Chains, Listed}
use eg_gs.Buffer.Start.{init_heads, init_buff, fresh_head, skip_hole, top_of}

-- A buffer that no one uses and that holds no block.
abbrev pub Free : BufferHead → Type 0
Free b =
    (b.b_dev ≡ 0)
    × (b.b_dirt ≡ 0)
    × (b.b_count ≡ 0)
    × (b.b_lock ≡ 0)
    × (b.b_next ≡ null)
    × (b.b_prev ≡ null)

-- The heads so far.
record Laid (k : Kernel) : Type 0 where
  free : (p : Ptr) → 0 < p → p ≤ k.nr_buffers → Free (k.buffers p)
  next : (p : Ptr) → 0 < p → p ≤ k.nr_buffers → (k.buffers p).b_next_free ≡ p + 1
  prev : (p : Ptr) → 0 < p → p ≤ k.nr_buffers → (k.buffers p).b_prev_free ≡ p - 1

-- One head more.
abbrev laid_more : Kernel → Kernel
laid_more k = record k {
  buffers =
      update k.buffers (k.nr_buffers + 1)
        (fresh_head (k.nr_buffers + 1) (k.buffers (k.nr_buffers + 1)));
  nr_buffers = k.nr_buffers + 1;
}

laid_more-Laid : (k : Kernel) → Laid k → Laid (laid_more k)
laid_more-Laid k l = record {
  free = λ p a b. ground (arith, l.free p);
  next = λ p a b. ground (arith, l.next p);
  prev = λ p a b. ground (arith, l.prev p);
}

module _ (end size : ℕ) (above : 2 ^ 10 ≤ end) where
  init_heads-Laid :
      (n b h : ℕ) (k : Kernel)
      → Laid k
      → k.nr_buffers + 1 ≡ h
      → 2 ^ 10 ≤ b
      → b < 2 ^ 32
      → b < n * 2 ^ 10
      → Returns
          (λ after k'.
            Laid k'
            × (k'.nr_buffers + 1 ≡ after)
            × (k.nr_buffers ≤ k'.nr_buffers)
            × (end + h * size + 2 ^ 10 ≤ b → h ≤ k'.nr_buffers))
          (init_heads end size n b h k)
  unfolding init_heads
  init_heads-Laid zero b h k laid here low high enough = absurd (omega arith)
  init_heads-Laid (suc n) b h k laid here low high enough =
      let b' = (b + 2 ^ 32 - 2 ^ 10) % 2 ^ 32 in
      elim (Bool-cases (leb (end + h * size) b')) [
        | inl e ↦
            let lower : (2 ^ 10 ≤ skip_hole b') × (skip_hole b' + 2 ^ 10 ≤ b) =
              ground (arith, e, above) in
            rw (e, sym here)
              (weaken
                (init_heads-Laid n (skip_hole b') (k.nr_buffers + 1 + 1) (laid_more k)
                  (laid_more-Laid k laid) refl lower.0 (omega arith) (omega arith))
                (λ after k' r. (r.0, r.1, ground (arith, r.2), λ _. ground (arith, r.2))))
        | inr e ↦ rw e (returns (laid, here, omega arith, λ room. ground (arith, e)))
      ]

abbrev pub in_order : ℕ → Ptr
in_order i = i + 1

abbrev pub no_stamp : Ram ℕ
no_stamp _ = 0

-- The last steps of `init_buff`.
abbrev closed : Kernel → Kernel
closed k =
    let n = k.nr_buffers in
    let bs = update k.buffers 1 (record (k.buffers 1) { b_prev_free = n }) in
    record k {
      buffers = update bs n (record (bs n) { b_next_free = 1 });
      free_list = 1;
      hash_table = λ i. if leb nr_hash i then k.hash_table i else null;
    }

closed-Ring : (k : Kernel) → Laid k → 0 < k.nr_buffers → Ring (closed k) k.nr_buffers in_order
closed-Ring k l some = record {
  inhabited = some;
  head = refl;
  not_null = λ i h. omega arith;
  in_range = λ i h. omega arith;
  distinct = λ i j h g e. omega arith;
  next = λ i h. ground (arith, l.next (i + 1));
  prev = λ i h. ground (arith, l.prev (i + 1));
}

closed-Free :
    (k : Kernel) → Laid k → (p : Ptr) → 0 < p → p ≤ k.nr_buffers → Free ((closed k).buffers p)
closed-Free k l p h g = ground (arith, l.free p h g)

none-Listed : (k : Kernel) → Laid k → (p : Ptr) → Listed (closed k) null p → ⊥
none-Listed k l p m = ground (arith, m, closed-Free k l p)

closed-Chains : (k : Kernel) → Laid k → Chains (closed k) null no_stamp 0
closed-Chains k l = record {
  next_link = λ p m _. absurd (none-Listed k l p m);
  prev_link = λ p m _. absurd (none-Listed k l p m);
  first = λ p m _. absurd (none-Listed k l p m);
  head = λ h a n. ground arith;
  unlisted = λ p n o m e. ground (arith, closed-Free k l p);
  past = λ p m. absurd (none-Listed k l p m);
  unique = λ p q m _ _ _. absurd (none-Listed k l p m);
}

abbrev pub Ready : Kernel → Type 0
Ready k =
    (0 < k.nr_buffers)
    × Cache k k.nr_buffers in_order no_stamp 0
    × ((p : Ptr) → 0 < p → p ≤ k.nr_buffers → Free (k.buffers p))

-- From a count of 0 buffers, if the kernel ends at 1 KB or above, the end of the memory is below 4 GB
-- and leaves room for one buffer, and the rounds are more than the memory has blocks of 1 KB: `init_buff`
-- returns with at least one buffer, with all buffers on the free list in the order of their
-- addresses, with the chains in order, and with every buffer unused, clean, unlocked and without a
-- block.
pub init_buff-Cache :
    (end size fuel buffer_end : ℕ) (k : Kernel)
    → k.nr_buffers ≡ 0
    → 2 ^ 10 ≤ end
    → top_of buffer_end < 2 ^ 32
    → end + 1 * size + 2 ^ 10 ≤ top_of buffer_end
    → top_of buffer_end < fuel * 2 ^ 10
    → Returns (λ _ k'. Ready k') (init_buff end size fuel buffer_end k)
unfolding init_buff
init_buff-Cache end size fuel buffer_end k zero_buffers above high room enough =
    let none_laid : Laid k = record {
      free = λ p a b. absurd (omega arith);
      next = λ p a b. absurd (omega arith);
      prev = λ p a b. absurd (omega arith);
    } in
    let heads =
      init_heads-Laid end size above fuel (top_of buffer_end) 1 k none_laid (omega arith)
        (omega arith) high enough in
    Returns-then (Returns (λ _ k'. Ready k')) _ heads (λ after k' r.
      let (laid, here, more, one) = r in
      let last : after - 1 ≡ k'.nr_buffers = omega arith in
      let some : 0 < k'.nr_buffers = one room in
      rw last (
        returns (
          some,
          record { ring = closed-Ring k' laid some; chains = closed-Chains k' laid },
          closed-Free k' laid,
        )))
