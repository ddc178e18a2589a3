-- ===== src/Kernel.antt =====
-- The state that the block layer and the file system share: the records of inc/fs.h and
-- blk/blk_main.h, and the variables of blk/ and fs/. A pointer to an element of an array is the
-- element's index plus one, and `null` is 0. Segments are flat and there is no paging, so the
-- cell at `null` is low memory, which the kernel can read and write without a fault.
pub mod Device
pub mod Result
use eg_gs.Base.{ℕ, Bool, List, Option, Ram}

abbrev pub Ptr : Type 0
Ptr = ℕ

abbrev pub null : Ptr
null = 0

-- `struct buffer_head`; `b_data` is the block that the pointer leads to, byte by byte.
pub record BufferHead : Type 0 where
  pub b_data : Ram ℕ
  pub b_blocknr : ℕ
  pub b_dev : ℕ
  pub b_uptodate : ℕ
  pub b_dirt : ℕ
  pub b_count : ℕ
  pub b_lock : ℕ
  pub b_prev : Ptr
  pub b_next : Ptr
  pub b_prev_free : Ptr
  pub b_next_free : Ptr

-- `struct request`. `dev` is `none` for -1; `buffer` counts bytes from the start of the data of `bh`.
pub record Request : Type 0 where
  pub dev : Option ℕ
  pub cmd : ℕ
  pub errors : ℕ
  pub sector : ℕ
  pub nr_sectors : ℕ
  pub buffer : ℕ
  pub bh : Ptr
  pub next : Ptr

-- `struct blk_dev_struct`: whether `request_fn` is set (it is always that of hd.c), and the queue.
pub record BlkDev : Type 0 where
  pub request_fn : Bool
  pub current_request : Ptr

-- `struct super_block`.
pub record SuperBlock : Type 0 where
  pub s_ninodes : ℕ
  pub s_nzones : ℕ
  pub s_imap_blocks : ℕ
  pub s_zmap_blocks : ℕ
  pub s_firstdatazone : ℕ
  pub s_log_zone_size : ℕ
  pub s_max_size : ℕ
  pub s_magic : ℕ
  pub s_imap : Ram Ptr
  pub s_zmap : Ram Ptr
  pub s_dev : ℕ
  pub s_isup : Ptr
  pub s_imount : Ptr
  pub s_time : ℕ
  pub s_lock : ℕ
  pub s_rd_only : ℕ
  pub s_dirt : ℕ

-- `struct m_inode`.
pub record Inode : Type 0 where
  pub i_mode : ℕ
  pub i_uid : ℕ
  pub i_size : ℕ
  pub i_mtime : ℕ
  pub i_gid : ℕ
  pub i_nlinks : ℕ
  pub i_zone : Ram ℕ
  pub i_atime : ℕ
  pub i_ctime : ℕ
  pub i_dev : ℕ
  pub i_num : ℕ
  pub i_count : ℕ
  pub i_lock : ℕ
  pub i_dirt : ℕ
  pub i_pipe : ℕ
  pub i_mount : ℕ
  pub i_seek : ℕ
  pub i_update : ℕ

-- `struct hd_i_struct`.
pub record HdInfo : Type 0 where
  pub head : ℕ
  pub sect : ℕ
  pub cyl : ℕ

-- `struct partition_i_struct`.
pub record PartitionInfo : Type 0 where
  pub start_sect : ℕ
  pub nr_sects : ℕ

-- The handlers that hd.c installs for interrupt 14.
pub data Handler : Type 0 where
  recal_intr read_intr write_intr : Handler

-- An access to an input or output port.
pub data Io : Type 0 where
  out : (port value : ℕ) → Io
  inp : (port : ℕ) → Io
  out_words : (port : ℕ) → (buffer offset count : ℕ) → Io
  inp_words : (port count : ℕ) → Io

pub record Kernel : Type 0 where
  pub buffers : Ram BufferHead
  pub nr_buffers : ℕ
  pub hash_table : Ram Ptr
  pub free_list : Ptr
  pub requests : Ram Request
  pub blk_dev : Ram BlkDev
  pub super_block_list : Ram SuperBlock
  pub inode_list : Ram Inode
  pub last_inode : Ptr
  pub hd_info : Ram HdInfo
  pub nr_hd : ℕ
  pub partition_info : Ram PartitionInfo
  pub recalibrate : ℕ
  pub reset : ℕ
  pub irq14 : Option Handler
  pub interrupts : Bool
  pub io : List Io
