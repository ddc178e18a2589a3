-- ===== src/Hd/Serve.antt =====
-- Reads of the disk as jobs: what is in flight, and what is done when a job is finished.
pub mod Step
pub mod Queue
pub mod Run
use eg_gs.Base.{
  ◌∙◌, subst, ap, none, leb, ◌&&◌, update, if◌then◌else◌, ℕ, suc, ◌+◌, ◌-◌, ◌*◌, ◌/◌, ◌%◌, ◌^◌, ◌≤◌,
  ◌<◌, ◌≡◌, ◌≢◌, refl, true, false, some, List, ◌∷◌, Ram, arith, ltb, ◌==◌, bit_and,
}
use eg_gs.Kernel.{Kernel, Ptr, null, HdInfo, read_intr, Io, inp, inp_words}
use eg_gs.Kernel.Result.{M, Void, ok, byte, with_buffer, with_request, ◌>>◌, modify}
use eg_gs.Blk.Lock.{unlock_buff}
use eg_gs.Blk.{minor_of}
use eg_gs.Hd.{hd_status, hd_data, hd_major, win_result, end_request, do_hd_request}
use eg_gs.Hd.Access.{Readable, command_io}
use eg_gs.Hd.Address.{addressed}
use eg_gs.Hd.Interrupts.{port_read, on_read, run_handler}
use eg_gs.Hd.Driver.{disk_interrupt, run_installed}

-- At every poll of its status the drive is ready and in place, not busy, and reports neither a fault
-- nor an error. Whether it has data to transfer (0x08), and the bits 0x04 and 0x02, are left open.
abbrev pub AlwaysReady : (answer : List Io → (port : ℕ) → ℕ) → Type 0
AlwaysReady answer = (io : List Io) → bit_and (byte (answer io hd_status)) 0xF1 ≡ 0x50

-- After a read command the controller sends the sector that the command names, and then the sector
-- behind it; `content drive lba` are the bytes of a sector.
pub record Sends (stream : List Io → Ram ℕ) (info : Ram HdInfo) (content : (drive lba : ℕ) → Ram ℕ)
    : Type 0 where
  pub first :
      (nsect sec low high drive_head p : ℕ) (io : List Io)
      → let drive = drive_head / 16 % 2 in
        let lba = addressed (info drive).sect (info drive).head sec low high drive_head in
        stream (inp hd_status ∷ command_io nsect sec low high drive_head 0x20 io) p
        ≡ content drive lba p
  pub second :
      (nsect sec low high drive_head p : ℕ) (io : List Io)
      → let drive = drive_head / 16 % 2 in
        let lba = addressed (info drive).sect (info drive).head sec low high drive_head in
        stream
          (inp hd_status
            ∷ inp_words hd_data 256
            ∷ inp hd_status
            ∷ command_io nsect sec low high drive_head 0x20 io)
          p
        ≡ content drive (lba + 1) p

-- A request for a block: its slot, the buffer, the device, and the sector of the disk.
pub record Job : Type 0 where
  pub req : Ptr
  pub bh : Ptr
  pub dev : ℕ
  pub lba : ℕ

-- It has not been started.
pub record Awaits (k : Kernel) (j : Job) : Type 0 where
  pub readable : Readable k j.req j.dev j.lba
  pub into : (k.requests j.req).bh ≡ j.bh
  pub real : j.bh ≢ null
  pub whole : (k.requests j.req).nr_sectors ≡ 2
  pub start : (k.requests j.req).buffer ≡ 0

-- The command for the job has been sent, and nothing since.
pub record InFlight (k : Kernel) (j : Job) : Type 0 where
  pub job : Awaits k j
  pub open job use *
  pub is : (k.blk_dev hd_major).current_request ≡ j.req
  pub waits : k.irq14 ≡ some read_intr
  pub sec : ℕ
  pub low : ℕ
  pub high : ℕ
  pub drive_head : ℕ
  pub io : List Io
  pub sent : k.io ≡ command_io 2 sec low high drive_head 0x20 io
  pub selects : drive_head / 16 % 2 ≡ minor_of j.dev / 5
  pub block :
      let info = k.hd_info (minor_of j.dev / 5) in
      addressed info.sect info.head sec low high drive_head ≡ j.lba

-- The bytes of a buffer into which the sectors `lba` and `lba + 1` of a drive have been read.
abbrev pub block_of : (content : (drive lba : ℕ) → Ram ℕ) → (drive lba : ℕ) → (old : Ram ℕ) → Ram ℕ
block_of content drive lba old q =
    if ltb q 512
    then byte (content drive lba q)
    else if ltb q 1024
    then byte (content drive (lba + 1) (q - 512))
    else old q

-- The job is done: its buffer holds the block, is up to date and not
-- locked, it has the same users, and its slot is free.
pub record Done (content : (drive lba : ℕ) → Ram ℕ) (k k' : Kernel) (j : Job) : Type 0 where
  pub bytes :
      (q : ℕ)
      → (k'.buffers j.bh).b_data q
        ≡ block_of content (minor_of j.dev / 5) j.lba (k.buffers j.bh).b_data q
  pub valid : (k'.buffers j.bh).b_uptodate ≡ 1
  pub unlocked : (k'.buffers j.bh).b_lock ≡ 0
  pub slot : (k'.requests j.req).dev ≡ none
  pub same_dev : (k'.buffers j.bh).b_dev ≡ (k.buffers j.bh).b_dev
  pub same_blocknr : (k'.buffers j.bh).b_blocknr ≡ (k.buffers j.bh).b_blocknr
  pub same_count : (k'.buffers j.bh).b_count ≡ (k.buffers j.bh).b_count

-- The driver has done the job and gone on to the request behind it.
pub record Finished (content : (drive lba : ℕ) → Ram ℕ) (k : Kernel) (j : Job) (k' : Kernel)
    : Type 0 where
  pub done : Done content k k' j
  pub on : (k'.blk_dev hd_major).current_request ≡ (k.requests j.req).next
  pub other_buffers : (p : Ptr) → p ≢ j.bh → k'.buffers p ≡ k.buffers p
  pub other_requests : (p : Ptr) → p ≢ j.req → k'.requests p ≡ k.requests p
  pub same_info : k'.hd_info ≡ k.hd_info
  pub same_nr : k'.nr_hd ≡ k.nr_hd
  pub same_partitions : k'.partition_info ≡ k.partition_info
  pub same_reset : k'.reset ≡ k.reset
  pub same_recalibrate : k'.recalibrate ≡ k.recalibrate
