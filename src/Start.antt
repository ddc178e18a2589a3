-- ===== src/Start.antt =====
-- The start of the kernel: `kmain` of kernel.c, `sys_setup` of fs/sys_fs.c, `init_blk` of
-- blk/blk_main.c, and the ticks of timer.c. What is printed on the way is left out, but for the
-- numbers that `sys_setup` counts.
pub mod Clock
pub mod Count
use eg_gs.Base.{
  ℕ, zero, suc, ◌+◌, ◌*◌, ◌/◌, ◌%◌, ◌^◌, Bool, true, Option, none, some, List, Ram, update, bit_and,
  ◌==◌, if◌then◌else◌,
}
use eg_gs.Kernel.{Kernel, Ptr, null, BufferHead, Io}
use eg_gs.Kernel.Device.{Device}
use eg_gs.Kernel.Result.{M, Void, ◌>>=◌, ◌>>◌, pure, skip, fail, read, modify, set_interrupts}
use eg_gs.Blk.{major_of, init_request_queue}
use eg_gs.Buffer.Start.{init_buff}
use eg_gs.Gate.{
  GdtEntry, IdtEntry, gdt_install, idt_install, isrs_install, irq_install, irq_install_handler,
}
use eg_gs.Hd.Setup.{init_hd_info}
use eg_gs.Inode.{root_ino}
use eg_gs.Inode.Life.{read_inode}
use eg_gs.Screen.{Screen, init_video}
use eg_gs.Super.{nr_super, root_dev, super_block, set_super}
use eg_gs.Super.Bitmap.{bit_at}
use eg_gs.Super.Mount.{read_super}

-- The fields of `multiboot_info_t` that the kernel reads.
pub record MultibootInfo : Type 0 where
  pub flags : ℕ
  pub drives_length : ℕ
  pub drives_addr : ℕ

-- The loop that clears `s_dev` and `s_lock` of the `n` super blocks from `p` on.
unfoldable pub clear_supers : ℕ → Ptr → M Void
clear_supers zero p = skip
clear_supers (suc n) p =
    let rest = clear_supers n (p + 1) in
    do set_super p (λ s. record s { s_dev = 0; s_lock = 0 }); rest

-- The loops that count free blocks and inodes: the clear bits among the first `n` of a map.
unfoldable pub free_bits : ℕ → Ram BufferHead → Ram Ptr → ℕ
free_bits zero bs map = 0
free_bits (suc i) bs map =
    let rest = free_bits i bs map in
    if bit_at (bs (map (i / 2 ^ 13))).b_data (i % 2 ^ 13) == 0 then rest + 1 else rest

-- What the two lines that `sys_setup` prints say.
pub record Counts : Type 0 where
  pub free_blocks : ℕ
  pub blocks : ℕ
  pub free_inodes : ℕ
  pub inodes : ℕ

abbrev pub count_free : Ptr → M Counts
count_free p = read λ k.
    let s = k.super_block_list p in
    record {
      free_blocks = free_bits s.s_nzones k.buffers s.s_zmap;
      blocks = s.s_nzones;
      free_inodes = free_bits (s.s_ninodes + 1) k.buffers s.s_imap;
      inodes = s.s_ninodes;
    }

-- `mi->i_count += 3; p->s_isup = p->s_imount = mi`.
unfoldable pub mount_root : Ptr → (mi : Ptr) → M Void
mount_root p mi = do
  modify (λ k. record k {
    inode_list =
        update k.inode_list mi
          (record (k.inode_list mi) { i_count = ((k.inode_list mi).i_count + 3) % 2 ^ 16 });
  })
  set_super p (λ s. record s { s_isup = mi; s_imount = mi })

-- The parameters of the parts that are started: the end of the kernel and the size of a buffer head,
-- the controller's answers, whether the disks have not been set up before, and the memory in which
-- the boot loader leaves the table of drives.
module _ (d : Device) (fuel : ℕ) (end size : ℕ) (answer : List Io → (port : ℕ) → ℕ)
    (callable : Bool) (mem : Ram ℕ) where
  unfoldable pub init_blk : MultibootInfo → M Void
  init_blk mbi = do
    init_buff end size fuel (2 * 1024 * 1024)
    init_request_queue
    if bit_and mbi.flags (2 ^ 6) == 0
        then skip
        else init_hd_info d fuel answer callable mem mbi.drives_addr mbi.drives_length
          >>= (λ _. skip)

  -- `struct d_inode` has 32 bytes, as the first test wants.
  unfoldable pub sys_setup : MultibootInfo → M Counts
  unfolding init_blk clear_supers mount_root free_bits
  sys_setup mbi = do
    init_blk mbi
    if major_of root_dev == 2 then fail "don't support floppy" else skip
    clear_supers nr_super 1
    p ← read_super d fuel root_dev
    if p == null then fail "Unable to mount root" else (do
      mi ← read_inode d fuel root_dev root_ino
      if mi == null then fail "Unable to read root i-node" else mount_root p mi >> count_free p)

-- The routines that are installed for interrupts; there is one.
pub data Routine : Type 0 where
  timer : Routine

unfoldable pub timer_install : (ℕ → Option Routine) → ℕ → Option Routine
unfolding irq_install_handler
timer_install routines = irq_install_handler routines 0 timer

pub record Tables : Type 0 where
  pub gdt : Ram GdtEntry
  pub idt : Ram IdtEntry
  pub irq_routines : ℕ → Option Routine
  pub sent : List (ℕ × ℕ)
  pub screen : Screen

-- The calls of `kmain` from `gdt_install` to `timer_install`; `isr` and `irq` are the addresses of
-- the stubs, and `sent` the bytes sent to the interrupt controllers.
unfoldable pub install_tables : (isr irq : Ram ℕ) → Tables → Tables
unfolding gdt_install idt_install init_video isrs_install irq_install timer_install
install_tables isr irq t =
    let (sent, idt) = irq_install irq (isrs_install isr (idt_install t.idt)) in
    record {
      gdt = gdt_install t.gdt;
      idt = idt;
      irq_routines = timer_install t.irq_routines;
      sent = sent;
      screen = init_video t.screen;
    }

module _ (d : Device) (fuel : ℕ) (end size : ℕ) (answer : List Io → (port : ℕ) → ℕ)
    (callable : Bool) (mem : Ram ℕ) where
  -- The state in the endless loop at the end, with the tables and the counts; `none` if the magic
  -- number is not that of the boot loader. `test_inode` is a test, and left out.
  unfoldable pub kmain :
      (isr irq : Ram ℕ) → (magic : ℕ) → MultibootInfo → Tables → M (Option (Tables × Counts))
  unfolding install_tables sys_setup
  kmain isr irq magic mbi t =
      if magic == 0x2BAD_B002
      then (do
        let t = install_tables isr irq t
        c ← sys_setup d fuel end size answer callable mem mbi
        set_interrupts true
        pure (some (t, c)))
      else pure none
