-- ===== src/Buffer/Orderly.antt =====
-- The lists of the cache stay in order through `new_buff`, `get_buff` and `read_buff`, whatever the
-- driver does.
pub mod Reading
use eg_gs.Base.{
  ℕ, zero, suc, ◌+◌, ◌-◌, ◌%◌, ◌^◌, ◌<◌, ◌≤◌, ◌≡◌, ◌≢◌, refl, ap, subst, ◌∙◌, sym, Bool, true,
  false, not, ◌&&◌, ◌||◌, Bool-cases, Option-cases, inl, inr, Ram, update, arith, ◌==◌,
  if◌then◌else◌, Option, some, none,
}
use eg_gs.Kernel.{Kernel, Ptr, null, BufferHead}
use eg_gs.Kernel.Result.{
  Result, M, Void, Ensures, Ensures-bind, Returns, Returns-then, returns, ok, and_then, pure, byte,
  with_buffer, ◌>>=◌, ◌>>◌,
}
use eg_gs.Kernel.Device.{Device}
use eg_gs.Buffer.{
  claim_buff, recycle_buff, new_buff, clean_rounds, find_buff, choose_buff, retain_rounds,
  retain_buff, get_rounds, get_buff, read_buff, put_buff, holds_block,
}
use eg_gs.Blk.Lock.{wait_on_buff}
use eg_gs.Buffer.Queues.Same.{
  SameLists, SameLists-refl, SameLists-trans, SameLists-Chains, SameLists-Ring,
}
use eg_gs.Buffer.Queues.Chains.{Listed}
use eg_gs.Buffer.Claim.{Cache, requeued, Claimed, claim_buff-Claimed}
use eg_gs.Buffer.Find.{Answer, find_buff-Answer}
use eg_gs.Buffer.Choose.{On, choose_buff-member}
use eg_gs.Buffer.Keep.{Keeps, Keeps-set_count}
use eg_gs.Buffer.Keep.Blocks.{wait_on_buff-Keeps, ll_rw_block-Keeps}
use eg_gs.Buffer.Keep.Cached.{clean_rounds-Keeps, put_buff-Keeps}

-- The free list is a ring of `n` buffers, and the chains are in order.
pub record Orderly (n : ℕ) (k : Kernel) : Type 0 where
  pub nth : ℕ → Ptr
  pub stamp : Ram ℕ
  pub now : ℕ
  pub cache : Cache k n nth stamp now

abbrev pub Orderly-same : {n : ℕ} {k k' : Kernel} → SameLists null k k' → Orderly n k → Orderly n k'
Orderly-same s o = record {
  nth = o.nth;
  stamp = o.stamp;
  now = o.now;
  cache = record {
    ring = SameLists-Ring s o.cache.ring;
    chains = SameLists-Chains s o.cache.chains;
  };
}

-- The lists are in order, and what is returned, if it is a buffer, holds the block.
abbrev pub Got : (n dev block : ℕ) → Ptr → Kernel → Type 0
Got n dev block bh k = Orderly n k × (bh ≢ null → holds_block (k.buffers bh) dev block ≡ true)

pub Got-null : (n dev block : ℕ) {k : Kernel} → Orderly n k → Got n dev block null k
Got-null n dev block o = (o, λ z. absurd (z refl))

counted_same :
    (k : Kernel) (bh : Ptr) (g : BufferHead → ℕ)
    → SameLists null k (with_buffer k bh (λ b. record b { b_count = g b }))
counted_same k bh g = unfold Keeps in Keeps-set_count bh g k

module _ (d : Device) (fuel n dev block : ℕ) (small : dev < 2 ^ 16) where
  claim_buff-Got :
      (k : Kernel) (o : Orderly n k) (bh : Ptr)
      → bh ≢ null
      → On n o.nth bh
      → ((p : Ptr) → Listed k null p → (k.buffers p).b_dev ≡ dev → (k.buffers p).b_blocknr ≢ block)
      → Ensures (Got n dev block) (and_then (claim_buff d fuel dev block bh k) (λ _. pure bh))
  claim_buff-Got k o bh there on new =
      let (j, l, e) = on there in
      let claimed = claim_buff-Claimed d fuel dev block j o.cache l small new in
      subst
        (λ b. Ensures (Got n dev block) (and_then (claim_buff d fuel dev block b k) (λ _. pure b)))
        (sym e)
        (Returns-then (Ensures (Got n dev block)) (λ _. pure (o.nth j)) claimed
          (λ _ k' c. (
            record {
              nth = requeued n j o.nth;
              stamp = update o.stamp (o.nth j) o.now;
              now = o.now + 1;
              cache = c.cache;
            },
            λ _. ground (arith, c.holds),
          )))

  -- What follows the wait, in a state where the buffer is not in use.
  clean_and_claim-Got :
      (k : Kernel) (o : Orderly n k) (bh : Ptr)
      → bh ≢ null
      → On n o.nth bh
      → Ensures (Got n dev block) (
          and_then (clean_rounds d fuel fuel bh k) (λ clean.
            (if clean then find_buff d fuel dev block else pure null) >>= λ there.
            (if clean && there == null
              then claim_buff d fuel dev block bh >> pure bh
              else pure null)))
  clean_and_claim-Got k o bh some_bh on =
      Ensures-bind (λ _ k1. SameLists null k k1) (Got n dev block) (clean_rounds d fuel fuel bh k) _
        (unfold Keeps in clean_rounds-Keeps d fuel fuel bh k)
        (λ clean k1 s. after_clean clean k1 (Orderly-same s o) on)
    where
      answered :
          (k1 : Kernel) (o1 : Orderly n k1)
          → On n o1.nth bh
          → (there : Ptr) (k2 : Kernel) → Answer dev block k1 there k2
          → Ensures
              (Got n dev block)
              ((if there == null then claim_buff d fuel dev block bh >> pure bh else pure null) k2)
      answered k1 o1 on1 there k2 (same, holds, fresh) = elim (Bool-cases (there == null)) [
        | inl e ↦ rw e (
            subst (λ x. Ensures (Got n dev block) ((claim_buff d fuel dev block bh >> pure bh) x))
              (sym same) (claim_buff-Got k1 o1 bh some_bh on1 (fresh (ground arith))))
        | inr e ↦ rw e (Got-null n dev block (subst (Orderly n) (sym same) o1))
      ]

      after_clean :
          (clean : Bool) (k1 : Kernel) (o1 : Orderly n k1)
          → On n o1.nth bh
          → Ensures (Got n dev block) (
              ((if clean then find_buff d fuel dev block else pure null) >>= λ there.
              (if clean && there == null
                then claim_buff d fuel dev block bh >> pure bh
                else pure null))
                k1)
      after_clean false k1 o1 on1 = Got-null n dev block o1
      after_clean true k1 o1 on1 =
          Ensures-bind (Answer dev block k1) (Got n dev block) (find_buff d fuel dev block k1) _
            (find_buff-Answer d fuel dev block o1.cache.chains) (answered k1 o1 on1)

  recycle_buff-Got :
      (k : Kernel) (o : Orderly n k) (bh : Ptr)
      → bh ≢ null
      → On n o.nth bh
      → Ensures (Got n dev block) (recycle_buff d fuel dev block bh k)
  unfolding recycle_buff
  recycle_buff-Got k o bh some_bh on =
      Ensures-bind (λ _ k1. SameLists null k k1) (Got n dev block) (wait_on_buff d fuel bh k) _
        (unfold Keeps in wait_on_buff-Keeps d fuel bh k)
        (λ _ k1 s. elim (Bool-cases ((k1.buffers bh).b_count == 0)) [
          | inl e ↦ rw e (clean_and_claim-Got k1 (Orderly-same s o) bh some_bh on)
          | inr e ↦ rw e (Got-null n dev block (Orderly-same s o))
        ])

  new_buff-Got :
      (k : Kernel) → Orderly n k → Ensures (Got n dev block) (new_buff d fuel dev block k)
  unfolding new_buff
  new_buff-Got k o = elim (Option-cases (choose_buff fuel k k.free_list null)) [
    | inl e ↦ rw (new_buff, e) tt
    | inr (bh, e) ↦ elim (Bool-cases (bh == null)) [
      | inl z ↦ rw (new_buff, e, z) (Got-null n dev block o)
      | inr z ↦
          rw (new_buff, e, z)
            (recycle_buff-Got k o bh (ground arith) (choose_buff-member o.cache.ring fuel bh e))
    ]
  ]

  retain_rounds-Got :
      (rounds : ℕ) (k : Kernel)
      → Orderly n k
      → Ensures (Got n dev block) (retain_rounds d fuel rounds dev block k)
  unfolding retain_rounds
  retain_rounds-Got zero k o = tt
  retain_rounds-Got (suc rounds) k o =
      Ensures-bind (Answer dev block k) (Got n dev block) (find_buff d fuel dev block k) _
        (find_buff-Answer d fuel dev block o.cache.chains)
        (λ bh k1 a.
          let o1 = subst (Orderly n) (sym a.0) o in
          elim (Bool-cases (bh == null)) [
            | inl z ↦ rw z (Got-null n dev block o1)
            | inr z ↦ rw z (
                Ensures-bind (λ _ k2. SameLists null k1 k2) (Got n dev block)
                  (wait_on_buff d fuel bh k1) _ (unfold Keeps in wait_on_buff-Keeps d fuel bh k1)
                  (λ _ k2 s. elim (Bool-cases (holds_block (k2.buffers bh) dev block)) [
                    | inl e ↦ rw e (
                      Orderly-same (counted_same k2 bh (λ b. byte (b.b_count + 1)))
                          (Orderly-same s o1),
                      λ _. ground (arith, e),
                    )
                    | inr e ↦ rw e (retain_rounds-Got rounds k2 (Orderly-same s o1))
                  ]))
          ])

  pub get_rounds-Got :
      (rounds : ℕ) (k : Kernel)
      → Orderly n k
      → Ensures (Got n dev block) (get_rounds d fuel rounds dev block k)
  unfolding get_rounds
  get_rounds-Got zero k o = tt
  get_rounds-Got (suc rounds) k o =
      Ensures-bind (Got n dev block) (Got n dev block) (retain_buff d fuel dev block k) _
        (unfold retain_buff in retain_rounds-Got fuel k o)
        (λ old k1 g.
          Ensures-bind (Got n dev block) (Got n dev block)
            ((if old == null then new_buff d fuel dev block else pure old) k1) _
            (elim (Bool-cases (old == null)) [
              | inl z ↦ rw z (new_buff-Got k1 g.0)
              | inr z ↦ rw z g
            ])
            (λ bh k2 h. elim (Bool-cases (bh == null)) [
              | inl z ↦ rw z (get_rounds-Got rounds k2 h.0)
              | inr z ↦ rw z h
            ]))
