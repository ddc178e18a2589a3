-- ===== src/Buffer.antt =====
-- buffer.c: the cache of disk blocks. Every loop runs `fuel` rounds at most; the locks are in
-- Blk/Lock.antt.
pub mod Ahead
pub mod Choose
pub mod Claim
pub mod Find
pub mod Hit
pub mod Keep
pub mod Miss
pub mod Orderly
pub mod Queues
pub mod Start
use eg_gs.Base.{
  ℕ, zero, suc, ◌+◌, ◌-◌, ◌*◌, ◌%◌, ◌^◌, Bool, true, false, not, ◌&&◌, ◌||◌, Option, none, some,
  Ram, update, ltb, ◌==◌, if◌then◌else◌, bit_xor,
}
use eg_gs.Kernel.{Kernel, Ptr, null, BufferHead}
use eg_gs.Kernel.Device.{Device}
use eg_gs.Kernel.Result.{
  M, Void, ◌>>=◌, ◌>>◌, pure, skip, fail, spin, read, modify, buffer, set_buffer, byte,
}
use eg_gs.Blk.{ll_rw_block, cmd_read, cmd_write}
use eg_gs.Blk.Lock.{wait_on_buff}
use Queues.{hash_index, remove_from_queues, insert_into_queues}

-- `BADNESS`.
abbrev pub badness : BufferHead → ℕ
badness b = b.b_dirt * 2 + b.b_lock

abbrev pub holds_block : BufferHead → (dev block : ℕ) → Bool
holds_block b dev block = b.b_dev == dev && b.b_blocknr == block

-- The loop of `find_buff` from `tmp` on: `none` if the rounds ran out.
unfoldable pub search_chain : ℕ → Ram BufferHead → (dev block : ℕ) → Ptr → Option Ptr
search_chain zero bs dev block tmp = none
search_chain (suc fuel) bs dev block tmp =
    let rest = search_chain fuel bs dev block (bs tmp).b_next in
    if tmp == null then some null else if holds_block (bs tmp) dev block then some tmp else rest

-- The loop of `new_buff` over the free list: an unused buffer that is neither dirty nor locked, or
-- the first of the least bad ones; `null` if all are in use.
unfoldable pub choose_buff : ℕ → Kernel → (tmp bh : Ptr) → Option Ptr
choose_buff zero k tmp bh = none
choose_buff (suc fuel) k tmp bh =
    let t = k.buffers tmp in
    let better = t.b_count == 0 && (bh == null || ltb (badness t) (badness (k.buffers bh))) in
    let best = if better then tmp else bh in
    let rest = choose_buff fuel k t.b_next_free best in
    if better && badness t == 0
    then some tmp
    else if t.b_next_free == k.free_list
    then some best
    else rest

module _ (d : Device) (fuel : ℕ) where
  unfoldable pub find_buff : (dev block : ℕ) → M Ptr
  unfolding search_chain
  find_buff dev block k =
      elim (search_chain fuel k.buffers dev block (k.hash_table (hash_index dev block))) [
        | none ↦ spin k
        | some bh ↦ pure bh k
      ]

  unfoldable pub sync_from : (dev : ℕ) → ℕ → Ptr → M Void
  sync_from dev zero bh = skip
  sync_from dev (suc n) bh =
      let rest = sync_from dev n (bh + 1) in
      let flush : M Void = do
        wait_on_buff d fuel bh
        b ← buffer bh
        if b.b_dev == dev && not (b.b_dirt == 0) then ll_rw_block d fuel cmd_write bh else skip
      in do b ← buffer bh; if b.b_dev == dev then flush else skip; rest

  -- The first buffer, `start_buffer`, is at 1.
  unfoldable pub sync_dev : ℕ → M Void
  unfolding sync_from
  sync_dev dev = do n ← read (λ k. k.nr_buffers); sync_from dev n 1

  unfoldable pub put_buff : Ptr → M Void
  put_buff buf = if buf == null then skip else (do
    wait_on_buff d fuel buf
    b ← buffer buf
    if b.b_count == 0
        then fail "Trying to free free buffer"
        else set_buffer buf (λ b. record b { b_count = b.b_count - 1 }))

  unfoldable pub retain_rounds : ℕ → (dev block : ℕ) → M Ptr
  unfolding find_buff
  retain_rounds zero dev block = spin
  retain_rounds (suc n) dev block =
      let again = retain_rounds n dev block in
      let take : Ptr → M Ptr = λ bh. do
        wait_on_buff d fuel bh
        b ← buffer bh
        if holds_block b dev block
            then set_buffer bh (λ b. record b { b_count = byte (b.b_count + 1) }) >> pure bh
            else again
      in do bh ← find_buff dev block; if bh == null then pure null else take bh

  unfoldable pub retain_buff : (dev block : ℕ) → M Ptr
  unfolding retain_rounds
  retain_buff dev block = retain_rounds fuel dev block

  -- `while (bh->b_dirt)`: false if the buffer was taken by someone else meanwhile.
  unfoldable pub clean_rounds : ℕ → Ptr → M Bool
  clean_rounds zero bh = spin
  clean_rounds (suc n) bh =
      let again = clean_rounds n bh in
      let write_out : ℕ → M Bool = λ dev. do
        sync_dev dev
        wait_on_buff d fuel bh
        b ← buffer bh
        if b.b_count == 0 then again else pure false
      in do b ← buffer bh; if b.b_dirt == 0 then pure true else write_out b.b_dev

  -- The last steps of `new_buff`, on a buffer that is unused, unlocked and clean.
  unfoldable pub claim_buff : (dev block : ℕ) → Ptr → M Void
  claim_buff dev block bh = do
    set_buffer bh (λ b. record b { b_count = 1; b_dirt = 0; b_uptodate = 0 })
    remove_from_queues bh
    set_buffer bh (λ b. record b { b_dev = dev % 2 ^ 16; b_blocknr = block })
    insert_into_queues bh

  unfoldable pub recycle_buff : (dev block : ℕ) → Ptr → M Ptr
  unfolding clean_rounds claim_buff
  recycle_buff dev block bh = do
    wait_on_buff d fuel bh
    b ← buffer bh
    if b.b_count == 0
        then (do
          clean ← clean_rounds fuel bh
          there ← if clean then find_buff dev block else pure null
          if clean && there == null then claim_buff dev block bh >> pure bh else pure null)
        else pure null

  unfoldable pub new_buff : (dev block : ℕ) → M Ptr
  unfolding choose_buff recycle_buff
  new_buff dev block k = elim (choose_buff fuel k k.free_list null) [
    | none ↦ spin k
    | some bh ↦ (if bh == null then pure null else recycle_buff dev block bh) k
  ]

  unfoldable pub get_rounds : ℕ → (dev block : ℕ) → M Ptr
  get_rounds zero dev block = spin
  get_rounds (suc n) dev block =
      let again = get_rounds n dev block in
      do
        old ← retain_buff dev block
        bh ← if old == null then new_buff dev block else pure old
        if bh == null then again else pure bh

  unfoldable pub get_buff : (dev block : ℕ) → M Ptr
  unfolding get_rounds
  get_buff dev block = get_rounds fuel dev block

  unfoldable pub read_buff : (dev block : ℕ) → M Ptr
  read_buff dev block = do
    bh ← get_buff dev block
    b ← buffer bh
    if bh == null
        then fail "read_buff: get_buff returned NULL\n"
        else if b.b_uptodate == 0
        then (do
          ll_rw_block d fuel cmd_read bh
          wait_on_buff d fuel bh
          b ← buffer bh
          if b.b_uptodate == 0 then put_buff bh >> pure null else pure bh)
        else pure bh

  unfoldable pub invalidate_buff : (dev block : ℕ) → M Void
  invalidate_buff dev block = do
    bh ← retain_buff dev block
    b ← buffer bh
    if bh == null
        then skip
        else if b.b_count == 1
        then set_buffer bh (λ b. record b { b_uptodate = 0; b_dirt = 0 }) >> put_buff bh
        else skip

  unfoldable pub invalidate_from : (dev : ℕ) → ℕ → Ptr → M Void
  invalidate_from dev zero bh = skip
  invalidate_from dev (suc n) bh =
      let rest = invalidate_from dev n (bh + 1) in
      let drop : M Void = do
        wait_on_buff d fuel bh
        b ← buffer bh
        if b.b_dev == dev
            then set_buffer bh (λ b. record b { b_uptodate = 0; b_dirt = 0 })
            else skip
      in do b ← buffer bh; if b.b_dev == dev then drop else skip; rest

  unfoldable pub invalidate_buffs : ℕ → M Void
  unfolding invalidate_from
  invalidate_buffs dev = do n ← read (λ k. k.nr_buffers); invalidate_from dev n 1
