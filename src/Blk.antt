-- ===== src/Blk.antt =====
-- blk_main.c: the request queue of each device, and `ll_rw_block`. Loops that wait for another
-- party run `fuel` rounds at most.
pub mod Elevator
pub mod Lock
pub mod Slots
use eg_gs.Base.{
  ℕ, zero, suc, ◌+◌, ◌*◌, ◌/◌, ◌%◌, ◌^◌, ◌-◌, Bool, true, false, not, ◌&&◌, ◌||◌, Option, none,
  some, List, Ram, update, ltb, leb, ◌==◌, if◌then◌else◌,
}
use eg_gs.Kernel.{Kernel, Ptr, null, Request, BlkDev}
use eg_gs.Kernel.Device.{Device}
use eg_gs.Kernel.Result.{
  M, Void, Result, ok, hang, panic, ◌>>=◌, ◌>>◌, pure, skip, fail, spin, read, modify, buffer,
  set_buffer, request, set_request, set_interrupts,
}
use Lock.{lock_buff, unlock_buff}

abbrev pub cmd_read : ℕ
cmd_read = 0

abbrev pub cmd_write : ℕ
cmd_write = 1

-- `READA` and `WRITEA`.
abbrev pub cmd_read_ahead : ℕ
cmd_read_ahead = 2

abbrev pub cmd_write_ahead : ℕ
cmd_write_ahead = 3

abbrev pub nr_request : ℕ
nr_request = 32

abbrev pub nr_blk_dev : ℕ
nr_blk_dev = 7

-- `MAJOR` and `MINOR`.
abbrev pub major_of : ℕ → ℕ
major_of dev = dev / 2 ^ 8

abbrev pub minor_of : ℕ → ℕ
minor_of dev = dev % 2 ^ 8

-- Device numbers as the source compares them: `none` is -1.
abbrev pub dev_ltb : Option ℕ → Option ℕ → Bool
dev_ltb none none = false
dev_ltb none (some b) = true
dev_ltb (some a) none = false
dev_ltb (some a) (some b) = ltb a b

abbrev pub dev_eqb : Option ℕ → Option ℕ → Bool
dev_eqb none none = true
dev_eqb none (some b) = false
dev_eqb (some a) none = false
dev_eqb (some a) (some b) = a == b

-- `IN_ORDER`.
unfoldable pub in_order : Request → Request → Bool
in_order a b =
    ltb a.cmd b.cmd
    || (a.cmd == b.cmd && (dev_ltb a.dev b.dev || (dev_eqb a.dev b.dev && ltb a.sector b.sector)))

-- The loop of `add_request`: the request behind which `req` goes.
unfoldable pub place_after : ℕ → Ram Request → Ptr → Ptr → Option Ptr
place_after zero rs tmp req = none
place_after (suc fuel) rs tmp req =
    let next = (rs tmp).next in
    let rest = place_after fuel rs next req in
    if next == null
    then some tmp
    else if (in_order (rs tmp) (rs req) || not (in_order (rs tmp) (rs next)))
        && in_order (rs req) (rs next)
    then some tmp
    else rest

unfoldable pub link_after : Ptr → Ptr → M Void
link_after tmp req = do
  t ← request tmp
  set_request req (λ r. record r { next = t.next })
  set_request tmp (λ r. record r { next = req })

-- The part of `add_request` before the test whether the device is busy.
unfoldable pub prepare_request : Ptr → M Void
prepare_request req = do
  set_request req (λ r. record r { next = null })
  set_interrupts false
  r ← request req
  if r.bh == null then skip else set_buffer r.bh (λ b. record b { b_dirt = 0 })

-- The request behind `tmp` or after it. The queue holds at most `nr_request` requests, so the loop
-- is given as many rounds.
unfoldable pub queue_behind : Ptr → Ptr → M Void
unfolding link_after
queue_behind tmp req = do
  rs ← read (λ k. k.requests)
  elim (place_after nr_request rs tmp req) [ none ↦ spin | some after ↦ link_after after req ]

module _ (d : Device) where
  unfoldable pub add_request : ℕ → Ptr → M Void
  unfolding prepare_request queue_behind
  add_request major req = do
    prepare_request req
    dev ← read (λ k. k.blk_dev major)
    if dev.current_request == null
        then (do
          modify (λ k. record k {
            blk_dev = update k.blk_dev major (record dev { current_request = req });
          })
          set_interrupts true
          d.request_fn)
        else queue_behind dev.current_request req >> set_interrupts true

-- `while (--req >= request_list) if (req->dev<0) break;` from the slot after the last one tried.
unfoldable pub free_request : ℕ → Ram Request → Option Ptr
free_request zero rs = none
free_request (suc n) rs =
    let rest = free_request n rs in elim (rs (suc n)).dev [ none ↦ some (suc n) | some _ ↦ rest ]

-- The number of slots that a command may use.
abbrev pub slots : ℕ → ℕ
slots cmd = if cmd == cmd_read then nr_request else nr_request * 2 / 3

unfoldable pub fill_request : ℕ → Ptr → Ptr → M Void
fill_request op bh req = do
  b ← buffer bh
  set_request req (λ _. record {
    dev = some b.b_dev;
    cmd = op;
    errors = 0;
    sector = b.b_blocknr * 2 % 2 ^ 32;
    nr_sectors = 2;
    buffer = 0;
    bh = bh;
    next = null;
  })

module _ (d : Device) where
  open d use {interrupt}

  -- From `repeat:` on. Without read-ahead the kernel spins until a slot is free.
  unfoldable pub make_request : ℕ → (cmd : ℕ) → (rw_ahead : Bool) → Ptr → M Void
  make_request zero cmd rw_ahead bh = spin
  make_request (suc fuel) cmd rw_ahead bh =
      let again = make_request fuel cmd rw_ahead bh in
      do
        rs ← read (λ k. k.requests)
        elim (free_request (slots cmd) rs) [
          | none ↦ if rw_ahead then unlock_buff bh else interrupt >> again
          | some req ↦ (do
            fill_request cmd bh req
            b ← buffer bh
            add_request d (major_of b.b_dev) req)
        ]

  -- What follows the test for read-ahead; `cmd` is `READ` or `WRITE` by then.
  unfoldable pub start_rw : ℕ → (cmd : ℕ) → (rw_ahead : Bool) → Ptr → M Void
  unfolding make_request
  start_rw fuel cmd rw_ahead bh = do
    lock_buff bh
    b ← buffer bh
    if (cmd == cmd_write && b.b_dirt == 0) || (cmd == cmd_read && not (b.b_uptodate == 0))
        then unlock_buff bh
        else make_request fuel cmd rw_ahead bh

  unfoldable pub ll_rw_block : ℕ → (cmd : ℕ) → Ptr → M Void
  unfolding start_rw
  ll_rw_block fuel cmd bh = do
    b ← buffer bh
    dev ← read (λ k. k.blk_dev (major_of b.b_dev))
    if leb nr_blk_dev (major_of b.b_dev) || not dev.request_fn
        then skip
        else if cmd == cmd_read_ahead
        then (if b.b_lock == 0 then start_rw fuel cmd_read true bh else skip)
        else if cmd == cmd_write_ahead
        then (if b.b_lock == 0 then start_rw fuel cmd_write true bh else skip)
        else if cmd == cmd_read || cmd == cmd_write
        then start_rw fuel cmd false bh
        else fail "Bad block dev command, must be R/W/RA/WA"

unfoldable pub init_slots : ℕ → Ram Request → Ram Request
init_slots zero rs = rs
init_slots (suc n) rs =
    init_slots n (update rs (suc n) (record (rs (suc n)) { dev = none; next = null }))

unfoldable pub init_request_queue : M Void
unfolding init_slots
init_request_queue = modify λ k. record k { requests = init_slots nr_request k.requests }
