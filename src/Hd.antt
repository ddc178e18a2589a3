-- ===== src/Hd.antt =====
-- blk/hd.c: the hard disk's requests and commands. What the controller answers is a parameter:
-- `answer` gives the byte read from a port after the accesses made so far, newest first.
pub mod Access
pub mod Address
pub mod Driver
pub mod Fetch
pub mod Interrupts
pub mod Quiet
pub mod Serve
pub mod Setup
pub mod Stray
use eg_gs.Base.{
  ℕ, zero, suc, ◌+◌, ◌-◌, ◌*◌, ◌/◌, ◌%◌, ◌^◌, Bool, true, false, not, ◌&&◌, ◌||◌, Option, none,
  some, List, ◌∷◌, Ram, update, ltb, leb, ◌==◌, if◌then◌else◌, bit_and, bit_or,
}
use eg_gs.Kernel.{
  Kernel, Ptr, null, Request, BufferHead, Handler, recal_intr, read_intr, write_intr, Io, out, inp,
  out_words, inp_words,
}
use eg_gs.Kernel.Result.{
  M, Void, ◌>>=◌, ◌>>◌, pure, skip, fail, spin, stray, read, modify, buffer, set_buffer, request,
  set_request, byte,
}
use eg_gs.Blk.{major_of, minor_of, cmd_read, cmd_write}
use eg_gs.Blk.Lock.{unlock_buff}

abbrev pub hd_major : ℕ
hd_major = 3

abbrev pub max_errors : ℕ
max_errors = 7

-- The ports of hdreg.h.
abbrev pub hd_data : ℕ
hd_data = 0x1F0

abbrev pub hd_error : ℕ
hd_error = 0x1F1

abbrev pub hd_status : ℕ
hd_status = 0x1F7

abbrev pub hd_cmd : ℕ
hd_cmd = 0x3F6

abbrev pub win_restore : ℕ
win_restore = 0x10

abbrev pub win_read : ℕ
win_read = 0x20

abbrev pub win_write : ℕ
win_write = 0x30

abbrev pub win_specify : ℕ
win_specify = 0x91

abbrev pub outb : (value port : ℕ) → M Void
outb value port = modify λ k. record k { io = out port (byte value) ∷ k.io }

-- `CURRENT_REQUEST`.
abbrev pub current : M Ptr
current = read λ k. (k.blk_dev hd_major).current_request

-- `CURRENT_REQUEST`, for a store to what it points to.
unfoldable pub in_progress : M Ptr
in_progress = do cur ← current; if cur == null then stray else pure cur

-- A device number as an `unsigned int`.
abbrev pub dev_number : Option ℕ → ℕ
dev_number none = 2 ^ 32 - 1
dev_number (some dev) = dev

unfoldable pub end_request : (uptodate : ℕ) → M Void
unfolding in_progress
end_request uptodate = do
  cur ← in_progress
  r ← request cur
  if r.bh == null
      then skip
      else set_buffer r.bh (λ b. record b { b_uptodate = uptodate }) >> unlock_buff r.bh
  set_request cur (λ r. record r { dev = none })
  modify (λ k. record k {
    blk_dev =
        update k.blk_dev hd_major
          (record (k.blk_dev hd_major) { current_request = (k.requests cur).next });
  })

unfoldable pub bad_rw_intr : M Void
unfolding in_progress end_request
bad_rw_intr = do
  cur ← in_progress
  set_request cur (λ r. record r { errors = r.errors + 1 })
  r ← request cur
  if leb max_errors r.errors then end_request 0 else skip
  cur ← current
  r ← request cur
  if ltb (max_errors / 2) r.errors then modify (λ k. record k { reset = 1 }) else skip

-- Cylinder, head and sector of a block, by the two divisions; the sectors of a track count from 1.
unfoldable pub chs : (block sect heads : ℕ) → ℕ × ℕ × ℕ
chs block sect heads = (block / sect / heads, block / sect % heads, block % sect + 1)

module _ (answer : List Io → (port : ℕ) → ℕ) where
  abbrev pub inb : (port : ℕ) → M ℕ
  inb port = do
    io ← read (λ k. k.io)
    modify (λ k. record k { io = inp port ∷ k.io })
    pure (byte (answer io port))

  -- True if the last command failed.
  unfoldable pub win_result : M Bool
  win_result = do
    i ← inb hd_status
    if bit_and i 0xF1 == 0x50
        then pure false
        else if i % 2 == 1
        then inb hd_error >>= (λ _. pure true)
        else pure true

  -- The loop of `controller_ready` with `retries` left.
  unfoldable pub ready_rounds : (retries : ℕ) → M ℕ
  ready_rounds zero = pure 0
  ready_rounds (suc retries) =
      let again = ready_rounds retries in
      do i ← inb hd_status; if bit_and i 0xC0 == 0x40 then pure (suc retries) else again

  unfoldable pub controller_ready : M ℕ
  controller_ready = ready_rounds 999_999

  -- The bytes that `hd_out` sends once the controller is ready.
  unfoldable pub send_command : (drive nsect sect head cyl cmd : ℕ) → M Void
  send_command drive nsect sect head cyl cmd = do
    outb 0 hd_cmd
    outb 0 (hd_data + 1)
    outb nsect (hd_data + 2)
    outb sect (hd_data + 3)
    outb cyl (hd_data + 4)
    outb (cyl / 2 ^ 8) (hd_data + 5)
    outb (bit_or (bit_or 0xA0 (drive * 2 ^ 4)) head) (hd_data + 6)
    outb cmd (hd_data + 7)

  unfoldable pub hd_out : (drive nsect sect head cyl cmd : ℕ) → Handler → M Void
  hd_out drive nsect sect head cyl cmd handler =
      if ltb 1 drive || ltb 15 head then fail "Trying to write bad sector" else (do
        retries ← controller_ready
        if retries == 0 then fail "HD controller not ready" else (do
          modify (λ k. record k { irq14 = some handler })
          send_command drive nsect sect head cyl cmd))

  unfoldable pub busy_rounds : ℕ → M Void
  busy_rounds zero = skip
  busy_rounds (suc n) =
      let again = busy_rounds n in
      do i ← inb hd_status; if bit_and i 0xC0 == 0x40 then skip else again

  unfoldable pub drive_busy : M Bool
  drive_busy = do busy_rounds 10_000; i ← inb hd_status; pure (not (bit_and i 0xD0 == 0x50))

  -- `head-1` is an `unsigned int`. What the answers change is only what is printed.
  unfoldable pub reset_controller : (drive : ℕ) → M Void
  reset_controller drive = do
    outb 4 hd_cmd
    outb 0 hd_cmd
    busy ← drive_busy
    i ← inb hd_error
    info ← read (λ k. k.hd_info drive)
    hd_out drive info.sect info.sect ((info.head + 2 ^ 32 - 1) % 2 ^ 32) info.cyl win_specify
        recal_intr

  -- `for (i=0; i<3000 && !(r=inb_p(HD_STATUS)&DRQ_STAT); i++)`.
  unfoldable pub wait_drq : ℕ → M Bool
  wait_drq zero = pure false
  wait_drq (suc n) =
      let again = wait_drq n in
      do i ← inb hd_status; if bit_and i 0x08 == 0 then again else pure true

  -- The commands of `do_hd_request` for a request within its partition, at the block `block` of the
  -- drive. A division by zero is an exception, which stops the kernel.
  unfoldable pub issue : (again : M Void) → Request → (drive block : ℕ) → M Void
  issue again r drive block = do
    info ← read (λ k. k.hd_info drive)
    let place = chs block info.sect info.head
    resetting ← read (λ k. k.reset)
    recalibrating ← read (λ k. k.recalibrate)
    if info.sect == 0 || info.head == 0
        then fail "Division By Zero"
        else if not (resetting == 0)
        then (do modify (λ k. record k { reset = 0; recalibrate = 1 }); reset_controller drive)
        else if not (recalibrating == 0)
        then (do
          modify (λ k. record k { recalibrate = 0 })
          hd_out drive info.sect 0 0 0 win_restore recal_intr)
        else if r.cmd == cmd_write
        then (do
          hd_out drive r.nr_sectors place.2 place.1 place.0 win_write write_intr
          ready ← wait_drq 3000
          if ready
              then modify (λ k. record k { io = out_words hd_data r.bh r.buffer 256 ∷ k.io })
              else bad_rw_intr >> again)
        else if r.cmd == cmd_read
        then hd_out drive r.nr_sectors place.2 place.1 place.0 win_read read_intr
        else fail "unknown hd-command"

  -- `do_hd_request`, where a `goto repeat` uses one round.
  unfoldable pub do_hd_request : ℕ → M Void
  do_hd_request zero = spin
  do_hd_request (suc n) =
      let again = do_hd_request n in
      do
        cur ← current
        r ← request cur
        b ← buffer r.bh
        nr_hd ← read (λ k. k.nr_hd)
        let dev = dev_number r.dev
        part ← read (λ k. k.partition_info (minor_of dev))
        if cur == null
            then skip
            else if not (major_of dev == hd_major)
            then fail "harddisk: request list destroyed"
            else if not (r.bh == null) && b.b_lock == 0
            then fail "harddisk: block not locked"
            else if leb (nr_hd * 5) (minor_of dev) || ltb part.nr_sects ((r.sector + 2) % 2 ^ 32)
            then end_request 0 >> again
            else issue again r (minor_of dev / 5) ((r.sector + part.start_sect) % 2 ^ 32)
