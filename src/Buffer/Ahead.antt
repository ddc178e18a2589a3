-- ===== src/Buffer/Ahead.antt =====
-- `read_buff_page` and `read_buff_ahead`: several blocks are asked for before the first is waited for.
use eg_gs.Base.{ℕ, ◌+◌, ◌-◌, ◌%◌, ◌^◌, not, ◌&&◌, Ram, List, [], ◌∷◌, ltb, leb, ◌==◌, if◌then◌else◌}
use eg_gs.Kernel.{Ptr, null}
use eg_gs.Kernel.Device.{Device}
use eg_gs.Kernel.Result.{M, Void, ◌>>=◌, ◌>>◌, pure, skip, fail, buffer, set_buffer, byte}
use eg_gs.Blk.{ll_rw_block, cmd_read, cmd_read_ahead}
use eg_gs.Blk.Lock.{wait_on_buff}
use eg_gs.Buffer.{get_buff, put_buff}

abbrev pub max_hd : ℕ
max_hd = 2

-- `COPYBLK`, to `address` in a memory of bytes.
abbrev pub copy_block : (block : Ram ℕ) → (address : ℕ) → Ram ℕ → Ram ℕ
copy_block block address mem p =
    if leb address p && ltb p (address + 2 ^ 10) then block (p - address) else mem p

module _ (d : Device) (fuel : ℕ) where
  -- The first loop of `read_buff_page`.
  unfoldable pub ask_for : (dev : ℕ) → List ℕ → M (List Ptr)
  ask_for dev [] = pure []
  ask_for dev (b ∷ bs) =
      let rest = ask_for dev bs in
      let ask : M Ptr = do
        bh ← get_buff d fuel dev b
        h ← buffer bh
        if not (bh == null) && h.b_uptodate == 0
            then ll_rw_block d fuel cmd_read bh >> pure bh
            else pure bh
      in do bh ← if b == 0 then pure null else ask; bhs ← rest; pure (bh ∷ bhs)

  -- The second loop: the blocks that could be read go to `address` and on.
  unfoldable pub copy_out : List Ptr → (address : ℕ) → Ram ℕ → M (Ram ℕ)
  copy_out [] address mem = pure mem
  copy_out (bh ∷ bhs) address mem =
      let rest = copy_out bhs ((address + 2 ^ 10) % 2 ^ 32) in
      let copy : M (Ram ℕ) = do
        wait_on_buff d fuel bh
        h ← buffer bh
        put_buff d fuel bh
        pure (if h.b_uptodate == 0 then mem else copy_block h.b_data address mem)
      in do mem' ← if bh == null then pure mem else copy; rest mem'

  -- The memory that is written is passed through; `b` has four elements.
  unfoldable pub read_buff_page : (address dev : ℕ) → (b : List ℕ) → Ram ℕ → M (Ram ℕ)
  unfolding ask_for copy_out
  read_buff_page address dev b mem = do bhs ← ask_for dev b; copy_out bhs address mem

  -- The loop over the arguments, which goes on while they are below `MAX_HD`. It ends here at the end
  -- of the list; the source wants a last argument that ends it.
  unfoldable pub ask_ahead : (dev : ℕ) → List ℕ → M Void
  ask_ahead dev [] = skip
  ask_ahead dev (first ∷ args) =
      let rest = ask_ahead dev args in
      let ask : M Void = do
        tmp ← get_buff d fuel dev first
        t ← buffer tmp
        if tmp == null then skip else (do
          if t.b_uptodate == 0 then ll_rw_block d fuel cmd_read_ahead tmp else skip
          set_buffer tmp (λ b. record b { b_count = byte (b.b_count + 255) }))
      in if ltb first max_hd then ask >> rest else skip

  unfoldable pub read_buff_ahead : (dev first : ℕ) → List ℕ → M Ptr
  unfolding ask_ahead
  read_buff_ahead dev first args = do
    bh ← get_buff d fuel dev first
    b ← buffer bh
    if bh == null then fail "bread: get_buff returned NULL\n" else (do
      if b.b_uptodate == 0 then ll_rw_block d fuel cmd_read bh else skip
      ask_ahead dev args
      wait_on_buff d fuel bh
      b ← buffer bh
      if b.b_uptodate == 0 then put_buff d fuel bh >> pure null else pure bh)
