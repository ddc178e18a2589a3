-- ===== src/Tests.antt =====
-- A small machine on which the theorems are tried: a disk that is idle, and a kernel with one
-- device mounted and nothing else.
mod Boot
mod Buffers
mod Cache
mod Console
mod Disk
mod Maps
mod Drive
mod Names
mod Output
mod Pages
mod Reads
mod Tables
use eg_gs.Base.{ℕ, false, none, [], ◌==◌, if◌then◌else◌}
use eg_gs.Kernel.{Kernel, BufferHead, Request, BlkDev, SuperBlock, HdInfo, PartitionInfo}
use eg_gs.Kernel.Device.{Device, Quiet-refl}
use eg_gs.Kernel.Result.{skip}
use eg_gs.Inode.{no_inode}

abbrev pub idle : Device
idle = record {
  request_fn = skip;
  interrupt = skip;
  request_fn-Quiet = λ k. Quiet-refl k;
  interrupt-Quiet = λ k. Quiet-refl k;
}

-- A block whose first byte is 3, so that its bits 0 and 1 are set.
abbrev pub head_buffer : BufferHead
head_buffer = record {
  b_data = λ p. if p == 0 then 3 else 0;
  b_blocknr = 2;
  b_dev = 0x301;
  b_uptodate = 1;
  b_dirt = 0;
  b_count = 1;
  b_lock = 0;
  b_prev = 0;
  b_next = 0;
  b_prev_free = 1;
  b_next_free = 1;
}

abbrev pub free_slot : Request
free_slot = record {
  dev = none;
  cmd = 0;
  errors = 0;
  sector = 0;
  nr_sectors = 0;
  buffer = 0;
  bh = 0;
  next = 0;
}

-- A device of two inodes and two zones, with one block for each map.
abbrev pub small_super : SuperBlock
small_super = record {
  s_ninodes = 2;
  s_nzones = 2;
  s_imap_blocks = 1;
  s_zmap_blocks = 1;
  s_firstdatazone = 1;
  s_log_zone_size = 0;
  s_max_size = 0;
  s_magic = 0x138F;
  s_imap = λ _. 1;
  s_zmap = λ _. 1;
  s_dev = 0x302;
  s_isup = 0;
  s_imount = 0;
  s_time = 0;
  s_lock = 0;
  s_rd_only = 0;
  s_dirt = 0;
}

abbrev pub machine : Kernel
machine = record {
  buffers = λ _. head_buffer;
  nr_buffers = 1;
  hash_table = λ _. 0;
  free_list = 1;
  requests = λ _. free_slot;
  blk_dev = λ _. record { request_fn = false; current_request = 0 };
  super_block_list = λ _. small_super;
  inode_list = λ _. no_inode;
  last_inode = 1;
  hd_info = λ _. record { head = 0; sect = 0; cyl = 0 };
  nr_hd = 0;
  partition_info = λ _. record { start_sect = 0; nr_sects = 0 };
  recalibrate = 0;
  reset = 0;
  irq14 = none;
  interrupts = false;
  io = [];
}
