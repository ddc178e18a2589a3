-- ===== src/Buffer/Start.antt =====
-- `init_buff`: heads from the end of the kernel upwards, blocks from the end of the memory downwards.
pub mod Ready
use eg_gs.Base.{
  ℕ, zero, suc, ◌+◌, ◌-◌, ◌*◌, ◌%◌, ◌^◌, Bool, true, false, Ram, update, leb, ◌==◌, if◌then◌else◌,
}
use eg_gs.Kernel.{Kernel, Ptr, null, BufferHead}
use eg_gs.Buffer.Queues.{nr_hash}
use eg_gs.Kernel.Result.{M, Void, ◌>>=◌, ◌>>◌, pure, skip, spin, read, modify, buffer, set_buffer}

-- A head without a block, whose neighbours on the free list are those in memory. `h->b_data = b` is
-- left out: each head of the model has its own 1024 bytes.
abbrev pub fresh_head : Ptr → BufferHead → BufferHead
fresh_head h b = record b {
  b_dev = 0;
  b_dirt = 0;
  b_count = 0;
  b_lock = 0;
  b_uptodate = 0;
  b_next = null;
  b_prev = null;
  b_prev_free = h - 1;
  b_next_free = h + 1;
}

-- The block below `b`, past the hole between 640 KB and 1 MB.
abbrev pub skip_hole : ℕ → ℕ
skip_hole b = if b == 0x10_0000 then 0xA_0000 else b

abbrev pub top_of : (buffer_end : ℕ) → ℕ
top_of buffer_end = if buffer_end == 2 ^ 20 then 640 * 1024 else buffer_end

-- `end` is the address of `start_buffer`, and `size` that of `struct buffer_head`.
module _ (end size : ℕ) where
  -- The loop, which returns the head after the last one; `b` is the lowest address of a block so far.
  unfoldable pub init_heads : ℕ → (b : ℕ) → (h : Ptr) → M Ptr
  init_heads zero b h = spin
  init_heads (suc n) b h =
      let b' = (b + 2 ^ 32 - 2 ^ 10) % 2 ^ 32 in
      let rest = init_heads n (skip_hole b') (h + 1) in
      if leb (end + h * size) b'
      then (do
        set_buffer h (fresh_head h)
        modify (λ k. record k { nr_buffers = k.nr_buffers + 1 })
        rest)
      else pure h

  unfoldable pub init_buff : (fuel : ℕ) → (buffer_end : ℕ) → M Void
  unfolding init_heads
  init_buff fuel buffer_end = do
    after ← init_heads fuel (top_of buffer_end) 1
    modify (λ k. record k { free_list = 1 })
    set_buffer 1 (λ b. record b { b_prev_free = after - 1 })
    set_buffer (after - 1) (λ b. record b { b_next_free = 1 })
    modify (λ k. record k { hash_table = λ i. if leb nr_hash i then k.hash_table i else null })
