-- ===== src/Hd/Interrupts.antt =====
-- The three handlers of interrupt 14 in blk/hd.c. `stream` gives the bytes that `port_read` reads
-- after the accesses made so far, and `do_hd_request` gets `fuel` rounds.
use eg_gs.Base.{
  ℕ, ◌+◌, ◌-◌, ◌%◌, ◌^◌, ◌&&◌, ◌||◌, some, List, ◌∷◌, Ram, ltb, leb, ◌==◌, if◌then◌else◌,
}
use eg_gs.Kernel.{Ptr, null, Handler, recal_intr, read_intr, write_intr, Io, out_words, inp_words}
use eg_gs.Kernel.Result.{
  M, Void, ◌>>=◌, ◌>>◌, skip, stray, read, modify, set_buffer, request, set_request, byte,
}
use eg_gs.Hd.{hd_data, in_progress, end_request, bad_rw_intr, win_result, do_hd_request}

module _ (answer : List Io → (port : ℕ) → ℕ) (stream : List Io → Ram ℕ) (fuel : ℕ) where
  -- `port_read(HD_DATA, buffer, 256)`: 512 bytes from `offset` on of the block of `bh`, which has 1024.
  unfoldable pub port_read : Ptr → (offset : ℕ) → M Void
  port_read bh offset = if bh == null || ltb 1024 (offset + 512) then stray else (do
    io ← read (λ k. k.io)
    set_buffer bh (λ b. record b {
      b_data = λ q.
          if leb offset q && ltb q (offset + 512)
          then byte (stream io (q - offset))
          else b.b_data q;
    })
    modify (λ k. record k { io = inp_words hd_data 256 ∷ k.io }))

  unfoldable pub on_read : M Void
  unfolding in_progress port_read win_result
  on_read = do
    failed ← win_result answer
    cur ← in_progress
    r ← request cur
    if failed then bad_rw_intr >> do_hd_request answer fuel else (do
      port_read r.bh r.buffer
      set_request cur (λ r. record r {
        errors = 0;
        buffer = r.buffer + 512;
        sector = (r.sector + 1) % 2 ^ 32;
        nr_sectors = (r.nr_sectors + 2 ^ 32 - 1) % 2 ^ 32;
      })
      r ← request cur
      if r.nr_sectors == 0
          then end_request 1 >> do_hd_request answer fuel
          else modify (λ k. record k { irq14 = some read_intr }))

  unfoldable pub on_write : M Void
  unfolding in_progress
  on_write = do
    failed ← win_result answer
    cur ← in_progress
    if failed then bad_rw_intr >> do_hd_request answer fuel else (do
      set_request cur (λ r. record r { nr_sectors = (r.nr_sectors + 2 ^ 32 - 1) % 2 ^ 32 })
      r ← request cur
      if r.nr_sectors == 0 then end_request 1 >> do_hd_request answer fuel else (do
        set_request cur
            (λ r. record r { sector = (r.sector + 1) % 2 ^ 32; buffer = r.buffer + 512 })
        r ← request cur
        modify (λ k. record k {
          irq14 = some write_intr;
          io = out_words hd_data r.bh r.buffer 256 ∷ k.io;
        })))

  unfoldable pub on_recal : M Void
  on_recal = do
    failed ← win_result answer
    if failed then bad_rw_intr else skip
    do_hd_request answer fuel

  -- What interrupt 14 runs.
  unfoldable pub run_handler : Handler → M Void
  unfolding on_read on_write on_recal
  run_handler recal_intr = on_recal
  run_handler read_intr = on_read
  run_handler write_intr = on_write
