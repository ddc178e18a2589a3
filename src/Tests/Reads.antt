-- ===== src/Tests/Reads.antt =====
-- A drive that sends sectors which are full of their own number, and reads from it.
use eg_gs.Base.{
  ℕ, ◌+◌, ◌/◌, ◌%◌, ◌≡◌, refl, true, false, Bool, Bool-cases, inl, inr, some, List, [], ◌∷◌, Ram,
  arith, ◌==◌, if◌then◌else◌,
}
use eg_gs.Kernel.{null, Kernel, Request, BufferHead, Io, out, inp, inp_words, read_intr}
use eg_gs.Kernel.Result.{Returns}
use eg_gs.Blk.{free_request}
use eg_gs.Buffer.{read_buff}
use eg_gs.Buffer.Hit.{Present, held}
use eg_gs.Hd.{hd_status}
use eg_gs.Hd.Access.{command_io}
use eg_gs.Hd.Address.{addressed}
use eg_gs.Hd.Driver.{disk}
use eg_gs.Hd.Serve.{AlwaysReady, Sends, Job, Awaits, InFlight}
use eg_gs.Hd.Serve.Queue.{AllDone}
use eg_gs.Hd.Serve.Run.{interrupts, interrupts-AllDone}
use eg_gs.Buffer.Claim.{Cache}
use eg_gs.Buffer.Queues.Same.{SameLists-equal, SameLists-Ring, SameLists-Chains}
use eg_gs.Hd.Fetch.{Fetchable, Reachable}
use eg_gs.Hd.Fetch.Load.{Loaded, read_buff-Loaded}
use eg_gs.Tests.Buffers.{tidy, tidy-Cache, in_order, stamps}
use eg_gs.Hd.Fetch.Read.{Fetched, read_buff-Fetched}
use eg_gs.Tests.{machine, head_buffer, free_slot}

abbrev numbered : (drive lba : ℕ) → Ram ℕ
numbered drive lba _ = lba + drive

-- A drive that has a sector to transfer after a command, and after the first of two sectors.
unfoldable has_data : List Io → Bool
has_data (out port _ ∷ _) = port == hd_status
has_data (inp_words _ _ ∷ inp _ ∷ out _ _ ∷ _) = true
has_data _ = false

unfoldable ready_status : List Io → (port : ℕ) → ℕ
ready_status io _ = if has_data io then 0x58 else 0x50

ready_status-AlwaysReady : AlwaysReady ready_status
unfolding ready_status
ready_status-AlwaysReady io = elim (Bool-cases (has_data io)) [
  | inl e ↦ rw e refl
  | inr e ↦ rw e refl
]

-- What it sends goes by the last command.
unfoldable sending : List Io → Ram ℕ
sending (inp _ ∷ out _ _ ∷ out _ dh ∷ out _ high ∷ out _ low ∷ out _ sec ∷ _) p =
    numbered (dh / 16 % 2) (addressed 10 4 sec low high dh) p
sending
      (inp _ ∷ inp_words _ _ ∷ inp _ ∷ out _ _ ∷ out _ dh ∷ out _ high ∷ out _ low ∷ out _ sec ∷ _)
      p =
    numbered (dh / 16 % 2) (addressed 10 4 sec low high dh + 1) p
sending _ p = 0

abbrev two_reads : Ram Request
two_reads p =
    if p == 1
    then record free_slot { dev = some 0x301; sector = 8; nr_sectors = 2; bh = 1; next = 2 }
    else if p == 2
    then record free_slot { dev = some 0x301; sector = 20; nr_sectors = 2; bh = 2 }
    else free_slot

abbrev stale_buffer : BufferHead
stale_buffer = record head_buffer { b_uptodate = 0; b_dev = 0x301; b_blocknr = 4; b_count = 0 }

abbrev drive : Kernel
drive = record machine {
  buffers = λ _. stale_buffer;
  hash_table = λ _. 1;
  blk_dev = λ _. record { request_fn = true; current_request = 0 };
  hd_info = λ _. record { head = 4; sect = 10; cyl = 100 };
  nr_hd = 1;
  partition_info = λ _. record { start_sect = 63; nr_sects = 1000 };
}

-- The command for sector 8 of the partition, which is sector 71 of the drive, has been sent.
abbrev under_way : Kernel
under_way = record drive {
  buffers = λ _. record stale_buffer { b_lock = 1 };
  requests = two_reads;
  blk_dev = λ _. record { request_fn = true; current_request = 1 };
  irq14 = some read_intr;
  io = command_io 2 2 1 0 0xA3 0x20 [];
}

sending-Sends : Sends sending drive.hd_info numbered
unfolding sending
sending-Sends = record { first = λ _ _ _ _ _ _ _. refl; second = λ _ _ _ _ _ _ _. refl }

abbrev job_one : Job
job_one = record { req = 1; bh = 1; dev = 0x301; lba = 71 }

abbrev job_two : Job
job_two = record { req = 2; bh = 2; dev = 0x301; lba = 83 }

job_one-Awaits : Awaits under_way job_one
job_one-Awaits = ground arith

job_two-Awaits : Awaits under_way job_two
job_two-Awaits = ground arith

job_one-InFlight : InFlight under_way job_one
job_one-InFlight = record {
  job = job_one-Awaits;
  is = refl;
  waits = refl;
  sec = 2;
  low = 1;
  high = 0;
  drive_head = 0xA3;
  io = [];
  sent = refl;
  selects = refl;
  block = refl;
}

interrupts-AllDone_example :
    Returns
      (λ _ k'. AllDone numbered under_way (job_one ∷ job_two ∷ []) k')
      (interrupts ready_status sending 1 4 under_way)
interrupts-AllDone_example =
    interrupts-AllDone ready_status sending numbered ready_status-AlwaysReady 0 (job_two ∷ [])
      job_one under_way sending-Sends refl refl job_one-InFlight ((omega arith, omega arith), tt)
      (refl, job_two-Awaits, tt, refl)

drive-Fetchable : Fetchable drive 1 32
unfolding free_request
drive-Fetchable = ground arith

block_four-Present : Present drive 0x301 4 1 0
block_four-Present = record {
  chain = (refl, omega arith, refl);
  unlocked = refl;
  users = omega arith;
}

read_buff-Fetched_example :
    Returns
      (λ p k'. (p ≡ 1) × Fetched numbered (held drive 1) 1 32 k')
      (read_buff (disk ready_status sending 1) 3 0x301 4 drive)
read_buff-Fetched_example =
    read_buff-Fetched ready_status sending numbered ready_status-AlwaysReady 0 0 drive 0x301 4 0 1
      32 sending-Sends refl refl block_four-Present (omega arith) drive-Fetchable

-- The cache of three buffers on this drive.
abbrev drive_cache : Kernel
drive_cache = record drive { buffers = tidy.buffers; nr_buffers = 3; hash_table = tidy.hash_table }

drive_cache-Cache : Cache drive_cache 3 in_order stamps 1
drive_cache-Cache =
    let same = SameLists-equal null tidy drive_cache refl refl refl refl in
    record {
      ring = SameLists-Ring same tidy-Cache.ring;
      chains = SameLists-Chains same tidy-Cache.chains;
    }

block_four-Reachable : Reachable drive_cache 0x301 4 32
unfolding free_request
block_four-Reachable = ground arith

read_buff-Loaded_example :
    Returns
      (λ p k'. (p ≡ 1) × Loaded numbered drive_cache 0x301 4 1 k')
      (read_buff (disk ready_status sending 1) 3 0x301 4 drive_cache)
read_buff-Loaded_example =
    read_buff-Loaded ready_status sending numbered ready_status-AlwaysReady 0 0 {k = drive_cache}
      {nth = in_order} sending-Sends refl refl drive_cache-Cache (omega arith)
      (λ p l d. ground arith) (ground arith) (omega arith) block_four-Reachable
