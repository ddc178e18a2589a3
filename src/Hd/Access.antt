-- ===== src/Hd/Access.antt =====
-- The bytes that the driver sends to the controller name the block that a request is for.
use eg_gs.Base.{
  ℕ, suc, ◌+◌, ◌*◌, ◌/◌, ◌%◌, ◌^◌, ◌≤◌, ◌<◌, ◌≡◌, ◌≢◌, refl, true, false, not, ◌&&◌, ◌||◌, some,
  List, ◌∷◌, arith, ltb, leb, ◌==◌, bit_and, bit_or,
}
use eg_gs.Kernel.{Kernel, null, Request, Handler, read_intr, Io, out, inp}
use eg_gs.Kernel.Result.{M, Void, ok, byte, Returns, returns}
use eg_gs.Blk.{major_of, minor_of, cmd_read, cmd_write}
use eg_gs.Hd.{
  hd_status, hd_major, hd_out, send_command, ready_rounds, controller_ready, do_hd_request, issue,
  chs, win_read, dev_number,
}
use eg_gs.Hd.Address.{addressed, addressed_block, drive_byte}

-- The accesses that a command makes, newest first, with the bytes of the drive's address.
abbrev pub command_io : (nsect sec low high drive_head cmd : ℕ) → List Io → List Io
command_io nsect sec low high drive_head cmd io =
    out 0x1F7 cmd
    ∷ out 0x1F6 drive_head
    ∷ out 0x1F5 high
    ∷ out 0x1F4 low
    ∷ out 0x1F3 sec
    ∷ out 0x1F2 nsect
    ∷ out 0x1F1 0
    ∷ out 0x3F6 0
    ∷ io

send_command-io :
    (answer : List Io → (port : ℕ) → ℕ) (drive nsect sect head cyl cmd : ℕ) (k : Kernel)
    → send_command answer drive nsect sect head cyl cmd k
      ≡ ok tt (record k {
        io =
            command_io
              (byte nsect)
              (byte sect)
              (byte cyl)
              (byte (cyl / 2 ^ 8))
              (byte (bit_or (bit_or 0xA0 (drive * 2 ^ 4)) head))
              (byte cmd)
              k.io;
      })
unfolding send_command
send_command-io answer drive nsect sect head cyl cmd k = refl

module _ (answer : List Io → (port : ℕ) → ℕ) where
  -- The controller is ready at the next poll.
  abbrev pub Ready : Kernel → Type 0
  Ready k = bit_and (byte (answer k.io hd_status)) 0xC0 ≡ 0x40

  ready_rounds-ok :
      (n : ℕ) (k : Kernel)
      → Ready k
      → ready_rounds answer (suc n) k ≡ ok (suc n) (record k { io = inp hd_status ∷ k.io })
  unfolding ready_rounds
  ready_rounds-ok n k ready = rw ready

  controller_ready-ok :
      (k : Kernel)
      → Ready k
      → controller_ready answer k ≡ ok 999_999 (record k { io = inp hd_status ∷ k.io })
  unfolding controller_ready
  controller_ready-ok k ready = ready_rounds-ok 999_998 k ready

  hd_out-ok :
      (drive nsect sect head cyl cmd : ℕ) (h : Handler) (k : Kernel)
      → Ready k
      → drive ≤ 1
      → head ≤ 15
      → hd_out answer drive nsect sect head cyl cmd h k
        ≡ ok tt (record k {
          irq14 = some h;
          io =
              command_io
                (byte nsect)
                (byte sect)
                (byte cyl)
                (byte (cyl / 2 ^ 8))
                (byte (bit_or (bit_or 0xA0 (drive * 2 ^ 4)) head))
                (byte cmd)
                (inp hd_status ∷ k.io);
        })
  unfolding hd_out
  hd_out-ok drive nsect sect head cyl cmd h k ready hd hh =
      let inside : (ltb 1 drive || ltb 15 head) ≡ false = ground arith in
      rw (inside, controller_ready-ok k ready)
        (send_command-io answer drive nsect sect head cyl cmd _)

-- A read of a locked buffer, at the block `lba` of a disk whose heads and sectors the address has
-- room for.
pub record Readable (k : Kernel) (cur dev lba : ℕ) : Type 0 where
  pub some_request : cur ≢ null
  pub device : (k.requests cur).dev ≡ some dev
  pub major : major_of dev ≡ hd_major
  pub command : (k.requests cur).cmd ≡ cmd_read
  pub locked : (k.buffers (k.requests cur).bh).b_lock ≢ 0
  pub partition : minor_of dev < k.nr_hd * 5
  pub drives : k.nr_hd ≤ 2
  pub small : (k.requests cur).sector + 2 < 2 ^ 32
  pub inside : (k.requests cur).sector + 2 ≤ (k.partition_info (minor_of dev)).nr_sects
  pub at : (k.requests cur).sector + (k.partition_info (minor_of dev)).start_sect ≡ lba
  pub short : lba < 2 ^ 32
  pub sectors : 1 ≤ (k.hd_info (minor_of dev / 5)).sect
  pub sectors_byte : (k.hd_info (minor_of dev / 5)).sect < 2 ^ 8
  pub heads : 1 ≤ (k.hd_info (minor_of dev / 5)).head
  pub heads_bits : (k.hd_info (minor_of dev / 5)).head ≤ 16
  pub cylinders :
      lba / (k.hd_info (minor_of dev / 5)).sect / (k.hd_info (minor_of dev / 5)).head < 2 ^ 16

-- Such a request is in progress.
pub record Reading (k : Kernel) (cur dev lba : ℕ) : Type 0 where
  pub is : (k.blk_dev hd_major).current_request ≡ cur
  pub what : Readable k cur dev lba
  pub open what use *

-- A read command for the block `lba` of the drive has been sent, and `read_intr` waits for its end.
pub record Commanded (k : Kernel) (drive nsect lba : ℕ) (k' : Kernel) : Type 0 where
  pub sec : ℕ
  pub low : ℕ
  pub high : ℕ
  pub drive_head : ℕ
  pub sent : k'.io ≡ command_io (byte nsect) sec low high drive_head 0x20 (inp hd_status ∷ k.io)
  pub selects : drive_head / 16 % 2 ≡ drive
  pub block : addressed (k.hd_info drive).sect (k.hd_info drive).head sec low high drive_head ≡ lba
  pub waits : k'.irq14 ≡ some read_intr
  pub rest : k' ≡ record k { io = k'.io; irq14 = k'.irq14 }

issue_read :
    (answer : List Io → (port : ℕ) → ℕ) (again : M Void) (r : Request) (drive block : ℕ)
    (k : Kernel)
    → Ready answer k
    → r.cmd ≡ cmd_read
    → k.reset ≡ 0
    → k.recalibrate ≡ 0
    → drive ≤ 1
    → block < 2 ^ 32
    → 1 ≤ (k.hd_info drive).sect
    → (k.hd_info drive).sect < 2 ^ 8
    → 1 ≤ (k.hd_info drive).head
    → (k.hd_info drive).head ≤ 16
    → block / (k.hd_info drive).sect / (k.hd_info drive).head < 2 ^ 16
    → Returns (λ _ k'. Commanded k drive r.nr_sectors block k') (issue answer again r drive block k)
unfolding issue chs
issue_read answer again r drive block k ready cmd reset recal hd hb s1 s2 h1 h2 hc =
    let sect = (k.hd_info drive).sect in
    let heads = (k.hd_info drive).head in
    let divides : (sect == 0 || heads == 0) ≡ false = ground arith in
    let sends =
      hd_out-ok answer drive r.nr_sectors (block % sect + 1) (block / sect % heads)
        (block / sect / heads) win_read read_intr k ready hd (omega arith) in
    let idle : (k.reset == 0) ≡ true = ground arith in
    let calibrated : (k.recalibrate == 0) ≡ true = ground arith in
    let reads : (r.cmd == cmd_read) ≡ true = ground arith in
    let writes : (r.cmd == cmd_write) ≡ false = ground arith in
    rw (divides, idle, calibrated, writes, reads, sends)
      (returns (record {
        sec = _;
        low = _;
        high = _;
        drive_head = _;
        sent = refl;
        selects = drive_byte drive (block / sect % heads) hd (omega arith);
        block = addressed_block drive block sect heads hd s1 s2 h1 h2 hc;
        waits = refl;
        rest = refl;
      }))

-- With the controller ready, neither a reset nor a recalibration due and at most two drives,
-- `do_hd_request` on a read request of the disk, which has a locked buffer and lies within its
-- partition, returns, and has sent one read command: the bytes of sector, cylinder, drive
-- and head that it sent name the drive and the address of the request's sector plus the start of the
-- partition, on a disk of 1 to 16 heads, 1 to 255 sectors and at most 2 ^ 16 cylinders, with sector
-- numbers below 2 ^ 32. The next interrupt runs `read_intr`, and no other part of the kernel has
-- changed.
pub do_hd_request-read :
    (answer : List Io → (port : ℕ) → ℕ) (n : ℕ) (k : Kernel) (cur dev lba : ℕ)
    → Ready answer k
    → k.reset ≡ 0
    → k.recalibrate ≡ 0
    → Reading k cur dev lba
    → Returns
        (λ _ k'. Commanded k (minor_of dev / 5) (k.requests cur).nr_sectors lba k')
        (do_hd_request answer (suc n) k)
unfolding do_hd_request
do_hd_request-read answer n k cur dev lba ready reset recal g =
    let r = k.requests cur in
    let there : (cur == null) ≡ false = ground (arith, g.some_request) in
    let number : dev_number r.dev ≡ dev = rw g.device in
    let ours : (major_of dev == hd_major) ≡ true = ground (arith, g.major) in
    let held : (not (r.bh == null) && (k.buffers r.bh).b_lock == 0) ≡ false =
      ground (arith, g.locked) in
    let block : (r.sector + (k.partition_info (minor_of dev)).start_sect) % 2 ^ 32 ≡ lba =
      omega (arith, g.at, g.short) in
    let valid : (leb (k.nr_hd * 5) (minor_of dev)
          || ltb (k.partition_info (minor_of dev)).nr_sects ((r.sector + 2) % 2 ^ 32))
        ≡ false =
      ground (arith, g.partition, g.small, g.inside) in
    rw (g.is, number, there, ours, held, valid, block)
      (issue_read answer (do_hd_request answer n) r (minor_of dev / 5) lba k ready (g.command) reset
        recal (omega (arith, g.partition, g.drives)) g.short g.sectors g.sectors_byte g.heads
        g.heads_bits g.cylinders)
