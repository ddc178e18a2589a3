-- ===== src/Buffer/Hit.antt =====
-- A block that is in the cache: what the functions of buffer.c do with it.
use eg_gs.Base.{
  ℕ, zero, suc, ◌+◌, ◌-◌, ◌<◌, ◌≡◌, ◌≢◌, ap, subst, fun_ext, true, false, some, Ram, arith, ◌==◌,
}
use eg_gs.Kernel.{Kernel, Ptr, null, BufferHead}
use eg_gs.Kernel.Device.{Device}
use eg_gs.Kernel.Result.{ok, and_then, with_buffer, byte}
use eg_gs.Blk.Lock.{wait_on_buff}
use eg_gs.Buffer.{
  holds_block, search_chain, find_buff, retain_rounds, retain_buff, get_rounds, get_buff, read_buff,
  put_buff,
}
use eg_gs.Buffer.Queues.{hash_index}

-- From `p` the chain leads to the buffer `bh` of the block in `n` steps, past buffers of other blocks.
abbrev pub Leads : Ram BufferHead → (dev block : ℕ) → (bh : Ptr) → ℕ → Ptr → Type 0
Leads bs dev block bh zero p = (p ≡ bh) × (p ≢ null) × (holds_block (bs p) dev block ≡ true)
Leads bs dev block bh (suc n) p =
    (p ≢ null) × (holds_block (bs p) dev block ≡ false) × Leads bs dev block bh n (bs p).b_next

-- The block's buffer is `bh`, `steps` behind the head of its chain; no one has locked it, and the
-- count of its users is below 255.
pub record Present (k : Kernel) (dev block : ℕ) (bh : Ptr) (steps : ℕ) : Type 0 where
  pub chain : Leads k.buffers dev block bh steps (k.hash_table (hash_index dev block))
  pub unlocked : (k.buffers bh).b_lock ≡ 0
  pub users : (k.buffers bh).b_count < 255

-- It also is up to date.
pub record Cached (k : Kernel) (dev block : ℕ) (bh : Ptr) (steps : ℕ) : Type 0 where
  pub present : Present k dev block bh steps
  pub open present use *
  pub valid : (k.buffers bh).b_uptodate ≢ 0

-- The state after a wait for a buffer that is free.
abbrev pub waited : Kernel → Kernel
waited k = record k { interrupts = false }

-- One user more.
abbrev pub held : Kernel → Ptr → Kernel
held k bh = with_buffer (waited k) bh (λ b. record b { b_count = byte (b.b_count + 1) })

pub search_chain-Leads :
    (fuel : ℕ) (bs : Ram BufferHead) (dev block : ℕ) (bh : Ptr) (n : ℕ) (p : Ptr)
    → n < fuel
    → Leads bs dev block bh n p
    → (search_chain fuel bs dev block p ≡ some bh)
      × (bh ≢ null)
      × (holds_block (bs bh) dev block ≡ true)
unfolding search_chain
search_chain-Leads zero bs dev block bh n p h l = absurd (omega arith)
search_chain-Leads (suc fuel) bs dev block bh zero p h (e, some_p, holds) =
    let there : (p == null) ≡ false = ground arith in
    (
      rw (there, holds) (ap (λ x. some x) e),
      subst (λ x. x ≢ null) e some_p,
      subst (λ x. holds_block (bs x) dev block ≡ true) e holds,
    )
search_chain-Leads (suc fuel) bs dev block bh (suc n) p h (some_p, other, l) =
    let there : (p == null) ≡ false = ground arith in
    rw (there, other) (search_chain-Leads fuel bs dev block bh n (bs p).b_next (omega arith) l)

pub wait_on_buff_free :
    (d : Device) (fuel : ℕ) (k : Kernel) (bh : Ptr)
    → 0 < fuel
    → (k.buffers bh).b_lock ≡ 0
    → wait_on_buff d fuel bh k ≡ ok tt (waited k)
unfolding wait_on_buff
wait_on_buff_free d zero k bh h e = absurd (omega arith)
wait_on_buff_free d (suc n) k bh h e = ground arith

retain_rounds-found :
    (d : Device) (fuel n : ℕ) (k : Kernel) (dev block : ℕ) (bh : Ptr)
    → find_buff d fuel dev block k ≡ ok bh k
    → (bh == null) ≡ false
    → wait_on_buff d fuel bh k ≡ ok tt (waited k)
    → holds_block (k.buffers bh) dev block ≡ true
    → 0 < n
    → retain_rounds d fuel n dev block k ≡ ok bh (held k bh)
unfolding retain_rounds
retain_rounds-found d fuel zero k dev block bh finds there free holds h = absurd (omega arith)
retain_rounds-found d fuel (suc n) k dev block bh finds there free holds h =
    rw (finds, there, free, holds)

get_rounds-retained :
    (d : Device) (fuel n : ℕ) (k k' : Kernel) (dev block : ℕ) (bh : Ptr)
    → retain_buff d fuel dev block k ≡ ok bh k'
    → (bh == null) ≡ false
    → 0 < n
    → get_rounds d fuel n dev block k ≡ ok bh k'
unfolding get_rounds
get_rounds-retained d fuel zero k k' dev block bh retains there h = absurd (omega arith)
get_rounds-retained d fuel (suc n) k k' dev block bh retains there h =
    rw (retains, there) (rw there)

-- Giving the reference back undoes the count.
held_back :
    (k : Kernel) (bh : Ptr)
    → (k.buffers bh).b_count < 255
    → with_buffer (held k bh) bh (λ b. record b { b_count = b.b_count - 1 }) ≡ waited k
held_back k bh h =
    ap (λ (bs : Ram BufferHead). record (waited k) { buffers = bs }) (fun_ext (λ p. same p))
  where
    count : byte ((k.buffers bh).b_count + 1) - 1 ≡ (k.buffers bh).b_count
    count = omega arith

    same :
        (p : Ptr)
        → (with_buffer (held k bh) bh (λ b. record b { b_count = b.b_count - 1 })).buffers p
          ≡ k.buffers p
    same p = ground (arith, count)

module _ (d : Device) (fuel : ℕ) {k : Kernel} {dev block : ℕ} {bh : Ptr} {steps : ℕ}
    (here : Present k dev block bh steps) (enough : steps < fuel) where
  pub find_buff-hit :
      (find_buff d fuel dev block k ≡ ok bh k)
      × ((bh == null) ≡ false)
      × (holds_block (k.buffers bh) dev block ≡ true)
  unfolding find_buff
  find_buff-hit =
      let (finds, some_bh, holds) =
        search_chain-Leads fuel k.buffers dev block bh steps (k.hash_table (hash_index dev block))
          enough here.chain in
      (rw (find_buff, finds), ground arith, holds)

  retain_buff-hit : retain_buff d fuel dev block k ≡ ok bh (held k bh)
  unfolding retain_buff
  retain_buff-hit =
      let (finds, there, holds) = find_buff-hit in
      retain_rounds-found d fuel fuel k dev block bh finds there
        (wait_on_buff_free d fuel k bh (omega arith) here.unlocked) holds (omega arith)

  pub get_buff-hit : get_buff d fuel dev block k ≡ ok bh (held k bh)
  unfolding get_buff
  get_buff-hit =
      get_rounds-retained d fuel fuel k (held k bh) dev block bh retain_buff-hit find_buff-hit.1
        (omega arith)

module _ (d : Device) (fuel : ℕ) {k : Kernel} {dev block : ℕ} {bh : Ptr} {steps : ℕ}
    (cached : Cached k dev block bh steps) (enough : steps < fuel) where
  pub cached_some : (bh == null) ≡ false
  cached_some = (find_buff-hit d fuel cached.present enough).1

  -- On a block that is in the cache, not locked, up to date and used by fewer than 255, and that the
  -- rounds given are enough to find, `read_buff` returns its buffer with one user more. It leaves the interrupts off, and changes nothing else: no other buffer, no list,
  -- and no request is made.
  pub read_buff-hit : read_buff d fuel dev block k ≡ ok bh (held k bh)
  unfolding read_buff
  read_buff-hit =
      let (_, there, _) = find_buff-hit d fuel cached.present enough in
      let valid : (((held k bh).buffers bh).b_uptodate == 0) ≡ false =
        ground (arith, cached.valid) in
      rw (get_buff-hit d fuel cached.present enough, there, valid)

  pub put_buff-held : put_buff d fuel bh (held k bh) ≡ ok tt (waited k)
  unfolding put_buff
  put_buff-held =
      let (_, there, _) = find_buff-hit d fuel cached.present enough in
      let unlocked : ((held k bh).buffers bh).b_lock ≡ 0 = ground (arith, cached.unlocked) in
      let used : (((held k bh).buffers bh).b_count == 0) ≡ false = ground (arith, cached.users) in
      rw (there, wait_on_buff_free d fuel (held k bh) bh (omega arith) unlocked, used)
        (ap (ok tt) (held_back k bh cached.users))

  -- For a block that is in the cache, not locked, up to date and used by fewer than 255, and that the
  -- rounds given are enough to find, `read_buff`
  -- followed by `put_buff` of the buffer that it returned leaves the kernel as it was, with the
  -- interrupts off.
  pub put_buff-read_buff :
      and_then (read_buff d fuel dev block k) (put_buff d fuel)
      ≡ ok tt (record k { interrupts = false })
  put_buff-read_buff = rw read_buff-hit put_buff-held
