-- ===== src/Lib.antt =====
-- EgGS, a small kernel for the PC: what its C code does, and why it is right.
--
-- The parts of the kernel and the files that model them (paths of the program are from the root of
-- the repository):
--   scrn.c                       Screen          the text console
--   util.c (memcpy, memset)      Base/Memory     over memory as a function from addresses
--   util.c (the rest)            Format          numbers; Format/Spec the flags, the width and the
--                                                precision; Format/Print `vsprintf`, `printk` and
--                                                `panic`; Format/Match the comparison of names
--   inc/fs.h, blk/blk_main.h     Kernel          the records that the parts below share
--   blk/blk_main.c               Blk             the request queue of a device and `ll_rw_block`
--   blk/buffer.c                 Buffer          the buffer cache; its lists are in Buffer/Queues,
--                                                `init_buff` in Buffer/Start, and the functions that
--                                                read several blocks in Buffer/Ahead
--                                Blk/Lock        the locks of buffers, which Blk needs too
--   blk/hd.c, blk/hdreg.h        Hd              the disk's requests and commands
--                                Hd/Interrupts   the handlers of its interrupt
--                                Hd/Setup        the drives and their partitions
--                                Hd/Driver       the driver as the device of the parts above it
--                                Hd/Serve        a queue of reads, interrupt by interrupt
--                                Hd/Fetch        a block from the disk to its buffer: `read_buff` of it
--   fs/super.c                   Super           mounted devices and their two bitmaps
--                                Super/Mount     `read_super`
--   fs/zone.c                    Zone            data blocks, taken and given back
--   fs/inode.c                   Inode           the table of inodes and its locks
--                                Inode/Disk      an inode's bytes in its block
--                                Inode/Sync      reading, writing and choosing inodes
--                                Inode/Tree      the blocks of an inode
--                                Inode/Life      references, creation and deletion
--                                Inode/Name      names in directories, and paths
--   gdt.c, idt.c, isrs.c, irq.c  Gate            the tables of segments and interrupts
--                                Gate/Faults     the exceptions of the processor
--   kernel.c, fs/sys_fs.c        Start           the start of the kernel, with `init_blk`
--   timer.c                      Start/Clock     the clock
--   page.c                       Page            the page tables and the stack of free pages
-- A definition has the name of the C function that it models. The files below a part's own hold
-- what is proved about it, and Tests the runs at concrete inputs.
--
-- The console is pure: a `Screen` is passed from call to call. The file system calls the buffer
-- cache, which calls the block layer, which calls the driver. These share the state `Kernel`, and a
-- function is a `Kernel → Result A` (Kernel/Result): it returns, or it panics with a message, or a
-- loop has used up its rounds, or it is `wild`: the disk driver stores through a request that does not
-- exist, or outside the block of a buffer, and nothing is said of what follows. The driver is the interface `Device` (Kernel/Device): a function that
-- starts a request, and what interrupts do between two tests of a lock, with the fields that it
-- leaves alone. What the controller answers to the driver, and the bytes that it sends, are parameters
-- of Hd; Hd/Serve states what is asked of them there: at every poll the drive is ready and reports no
-- error, whether it has data to transfer or not (`AlwaysReady`), and it sends the sectors that the last command names (`Sends`). Hd/Driver makes the driver of Hd such a
-- device. Arrays are functions from indices, a pointer to an element is its index plus one, and `NULL`
-- is 0; the kernel runs without paging, so an access through `NULL` goes through, but for the driver's
-- stores that are `wild`.
--
-- Loops over arrays are recursion on the number of elements left. Loops that wait or follow links
-- take a number of rounds; `place_after` gets as many as there are requests, which is enough for a
-- queue of distinct requests, and the loop over the super blocks needs more than `nr_super`. The
-- theorems about such code state that it returns, or say that they are about the runs that do.
--
-- Not modelled: the assembly that loads tables and saves registers, the boot code, and what the
-- kernel prints while it starts. page.c and fs/name2inode.c are not part of the kernel that is built,
-- and use names that no file declares. For page.c those names are parameters, and `pmm_init`, which
-- reads records that no file declares, is left out; fs/name2inode.c is a second copy of the path
-- functions of fs/inode.c.
pub mod Base
pub mod Blk
pub mod Buffer
pub mod Format
pub mod Gate
pub mod Hd
pub mod Kernel
pub mod Page
pub mod Screen
pub mod Start
pub mod Super
pub mod Inode
pub mod Zone
mod Tests
