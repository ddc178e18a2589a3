-- ===== src/Buffer/Find.antt =====
-- `find_buff` finds exactly the blocks that are in the cache.
use eg_gs.Base.{
  ℕ, zero, suc, ◌+◌, ◌<◌, ◌≤◌, ◌≡◌, ◌≢◌, refl, ap, ◌∙◌, sym, subst, true, false, Bool-cases,
  Option-cases, inl, inr, Ram, arith, ◌==◌, Option, some, none,
}
use eg_gs.Kernel.{Kernel, Ptr, null, BufferHead}
use eg_gs.Kernel.Result.{ok, Ensures}
use eg_gs.Kernel.Device.{Device}
use eg_gs.Buffer.{find_buff, search_chain, holds_block}
use eg_gs.Buffer.Hit.{Leads, search_chain-Leads}
use eg_gs.Buffer.Queues.{hash_index}
use eg_gs.Buffer.Queues.Unlink.{chain_of}
use eg_gs.Buffer.Queues.Chains.{Chains, Listed, hash_index_lt}

search_chain-only :
    (fuel : ℕ) (bs : Ram BufferHead) (dev block : ℕ) (bh : Ptr) (n : ℕ) (p r : Ptr)
    → Leads bs dev block bh n p
    → search_chain fuel bs dev block p ≡ some r
    → r ≡ bh
unfolding search_chain
search_chain-only zero bs dev block bh n p r l e = ground arith
search_chain-only (suc fuel) bs dev block bh zero p r (e, some_p, holds) found = ground arith
search_chain-only (suc fuel) bs dev block bh (suc n) p r (some_p, other, l) found =
    ground (arith, search_chain-only fuel bs dev block bh n (bs p).b_next r l)

search_chain-holds :
    (fuel : ℕ) (bs : Ram BufferHead) (dev block : ℕ) (p r : Ptr)
    → search_chain fuel bs dev block p ≡ some r
    → r ≢ null
    → holds_block (bs r) dev block ≡ true
unfolding search_chain
search_chain-holds zero bs dev block p r found there = ground arith
search_chain-holds (suc fuel) bs dev block p r found there =
    ground (arith, search_chain-holds fuel bs dev block (bs p).b_next r)

module _ {k : Kernel} {stamp : Ram ℕ} {now : ℕ} (i : Chains k null stamp now) (dev block : ℕ) where
  -- From `q` on, the search ends at a buffer of the block or at the end of the chain.
  search_chain-ends :
      (fuel : ℕ) (q : Ptr)
      → (q ≢ null → Listed k null q)
      → (q ≢ null → stamp q + 1 < fuel)
      → 0 < fuel
      → (r : Ptr) × (search_chain fuel k.buffers dev block q ≡ some r)
        × (r ≢ null → Listed k null r × (holds_block (k.buffers r) dev block ≡ true))
  unfolding search_chain
  search_chain-ends zero q l s f = absurd (omega arith)
  search_chain-ends (suc fuel) q l s f = elim (Bool-cases (q == null)) [
    | inl e ↦ (null, rw e refl, λ n. absurd (n refl))
    | inr e ↦ elim (Bool-cases (holds_block (k.buffers q) dev block)) [
      | inl h ↦ (q, rw (e, h) refl, λ n. (l n, h))
      | inr h ↦
          let there : q ≢ null = ground arith in
          let next = i.next_link q (l there) in
          let (r, found, holds) =
            search_chain-ends fuel (k.buffers q).b_next (λ n. (next n).0)
              (λ n. ground (arith, next n, s there)) (ground (arith, s there)) in
          (r, rw (e, h) found, holds)
    ]
  ]

  -- The chain leads to a buffer of the block, if it leads there from `q` on.
  module _ (bh : Ptr) (listed : Listed k null bh)
      (holds : holds_block (k.buffers bh) dev block ≡ true) where
    passed :
        (u : Ptr)
        → Listed k null u
        → stamp bh < stamp u
        → holds_block (k.buffers u) dev block ≡ false
    passed u l newer = elim (Bool-cases (holds_block (k.buffers u) dev block)) [
      | inl e ↦
          let same : u ≡ bh = i.unique u bh l listed (ground arith) (ground arith) in
          ground (arith, ap stamp same)
      | inr e ↦ e
    ]

    Leads-head :
        (rounds : ℕ) (q : Ptr) (n : ℕ)
        → Listed k null q
        → chain_of (k.buffers q) ≡ hash_index dev block
        → now ≤ stamp q + rounds
        → n + stamp bh ≤ stamp q
        → Leads k.buffers dev block bh n q
        → (m : ℕ) × (m < now) × Leads k.buffers dev block bh m (k.hash_table (hash_index dev block))
    Leads-head zero q n l c r older leads = ground (arith, i.past q l)
    Leads-head (suc rounds) q n l c r older leads =
        elim (Bool-cases ((k.buffers q).b_prev == null)) [
          | inl e ↦
              let top : q ≡ k.hash_table (hash_index dev block) =
                sym (i.first q l (ground arith)) ∙ ap k.hash_table c in
              (n, ground (arith, i.past q l), subst (Leads k.buffers dev block bh n) (top) leads)
          | inr e ↦
              let u = (k.buffers q).b_prev in
              let (listed_u, chain, forth) = i.prev_link q l (ground arith) in
              let below = i.next_link u listed_u (ground (arith, l.0)) in
              let newer : stamp q < stamp u = ground arith in
              Leads-head rounds u (suc n) listed_u (chain ∙ c) (omega arith) (omega arith) (
                listed_u.0,
                passed u listed_u (omega arith),
                subst (Leads k.buffers dev block bh n) (sym forth) leads,
              )
        ]

    -- However many rounds there are, the answer is no other buffer, and not `NULL`.
    search_chain-never :
        (fuel : ℕ) (r : Ptr)
        → search_chain fuel k.buffers dev block (k.hash_table (hash_index dev block)) ≡ some r
        → r ≡ bh
    search_chain-never fuel r e =
        let chain : chain_of (k.buffers bh) ≡ hash_index dev block = ground arith in
        let (m, short, leads) =
          Leads-head now bh 0 listed chain (omega arith) (omega arith) (refl, listed.0, holds) in
        search_chain-only fuel k.buffers dev block bh m (k.hash_table (hash_index dev block)) r
          leads e

    -- The buffer is found.
    search_chain-finds :
        (fuel : ℕ)
        → now < fuel
        → search_chain fuel k.buffers dev block (k.hash_table (hash_index dev block)) ≡ some bh
    search_chain-finds fuel enough =
        let chain : chain_of (k.buffers bh) ≡ hash_index dev block = ground arith in
        let (m, short, leads) =
          Leads-head now bh 0 listed chain (omega arith) (omega arith) (refl, listed.0, holds) in
        (search_chain-Leads fuel k.buffers dev block bh m (k.hash_table (hash_index dev block))
          (omega arith) leads).0

abbrev or_null : Ptr → Option Ptr → Ptr
or_null p none = p
or_null p (some q) = q

-- If the chains are in order, then with at least two rounds more than buffers have been put on them
-- `find_buff` returns and changes nothing: it returns the buffer that holds the block, and that is on the
-- chains, and `NULL` exactly if there is none.
pub find_buff-finds :
    (d : Device) (fuel dev block : ℕ) {k : Kernel} {stamp : Ram ℕ} {now : ℕ}
    → Chains k null stamp now
    → now + 1 < fuel
    → (bh : Ptr) × (find_buff d fuel dev block k ≡ ok bh k)
      × (bh ≢ null → Listed k null bh × (holds_block (k.buffers bh) dev block ≡ true))
      × ((p : Ptr) → Listed k null p → holds_block (k.buffers p) dev block ≡ true → bh ≡ p)
unfolding find_buff
find_buff-finds d fuel dev block {k} {stamp} {now} i enough =
    let h = k.hash_table (hash_index dev block) in
    let top = i.head (hash_index dev block) (hash_index_lt dev block) in
    let (bh, found, holds) =
      search_chain-ends i dev block fuel h (λ n. (top n).0)
        (λ n. ground (arith, i.past h (top n).0)) (omega arith) in
    let only =
      λ (p : Ptr) (l : Listed k null p) (same : holds_block (k.buffers p) dev block ≡ true).
        ap (or_null bh) (sym found ∙ search_chain-finds i dev block p l same fuel (omega arith)) in
    (bh, rw (find_buff, found) refl, holds, λ p l same. only p l same)

-- What the answer of `find_buff` says, however many rounds there are: a buffer holds the block, and
-- after `NULL` none does.
abbrev pub Answer : (dev block : ℕ) → Kernel → Ptr → Kernel → Type 0
Answer dev block k bh k' =
    (k' ≡ k)
    × (bh ≢ null → holds_block (k.buffers bh) dev block ≡ true)
    × (bh ≡ null
        → (p : Ptr) → Listed k null p
        → (k.buffers p).b_dev ≡ dev
        → (k.buffers p).b_blocknr ≢ block)

pub find_buff-Answer :
    (d : Device) (fuel dev block : ℕ) {k : Kernel} {stamp : Ram ℕ} {now : ℕ}
    → Chains k null stamp now
    → Ensures (Answer dev block k) (find_buff d fuel dev block k)
unfolding find_buff
find_buff-Answer d fuel dev block {k} i =
    let h = k.hash_table (hash_index dev block) in
    elim (Option-cases (search_chain fuel k.buffers dev block h)) [
      | inl e ↦ rw (find_buff, e) tt
      | inr (r, e) ↦
          rw (find_buff, e)
            (
              refl,
              search_chain-holds fuel k.buffers dev block h r e,
              λ z p l d_is b_is.
                  absurd
                    (l.0 (sym (search_chain-never i dev block p l (ground arith) fuel r e) ∙ z)),
            )
    ]
