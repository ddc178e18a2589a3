-- ===== src/Super/Mount.antt =====
-- `read_super` of fs/super.c: a device's super block and its maps are read into the table.
use eg_gs.Base.{ℕ, zero, suc, ◌+◌, ◌%◌, ◌^◌, not, Ram, update, ◌==◌, if◌then◌else◌, bit_or}
use eg_gs.Kernel.{Ptr, null, SuperBlock}
use eg_gs.Kernel.Device.{Device}
use eg_gs.Kernel.Result.{M, Void, ◌>>=◌, ◌>>◌, pure, read, buffer, set_buffer}
use eg_gs.Buffer.{read_buff, put_buff}
use eg_gs.Super.{
  super_block, set_super, lock_super, unlock_super, find_super, put_maps, nr_super, map_slots,
  super_magic,
}
use eg_gs.Super.Bitmap.{get_16, get_32}

-- The first unused entry of the table from `s` on, with `n` left, or `null`.
unfoldable pub free_super : ℕ → Ram SuperBlock → Ptr → Ptr
free_super zero table s = null
free_super (suc n) table s =
    let rest = free_super n table (s + 1) in if (table s).s_dev == 0 then s else rest

-- The part of a super block that is on the disk, `struct d_super_block`.
unfoldable pub load_super : Ram ℕ → SuperBlock → SuperBlock
load_super m s = record s {
  s_ninodes = get_16 m 0;
  s_nzones = get_16 m 2;
  s_imap_blocks = get_16 m 4;
  s_zmap_blocks = get_16 m 6;
  s_firstdatazone = get_16 m 8;
  s_log_zone_size = get_16 m 10;
  s_max_size = get_32 m 12;
  s_magic = get_16 m 16;
}

-- `b_data[0] |= 1`.
abbrev pub reserve_first : Ptr → M Void
reserve_first bh =
    set_buffer bh (λ b. record b { b_data = update b.b_data 0 (bit_or (b.b_data 0) 1) })

module _ (d : Device) (fuel : ℕ) where
  -- One of the loops that read the maps, with `n` blocks left; it returns the next block to read.
  -- The slots are not bounded by `map_slots`: one past them is a cell of its own here.
  unfoldable pub load_maps :
      (put : ℕ → Ptr → SuperBlock → SuperBlock) → ℕ → (dev : ℕ) → Ptr → (i block : ℕ) → M ℕ
  load_maps put zero dev s i block = pure block
  load_maps put (suc n) dev s i block =
      let next = load_maps put n dev s (i + 1) (block + 1) in
      do
        bh ← read_buff d fuel dev block
        set_super s (put i bh)
        if bh == null then pure block else next

  abbrev pub put_imap : ℕ → Ptr → SuperBlock → SuperBlock
  put_imap i bh s = record s { s_imap = update s.s_imap i bh }

  abbrev pub put_zmap : ℕ → Ptr → SuperBlock → SuperBlock
  put_zmap i bh s = record s { s_zmap = update s.s_zmap i bh }

  -- `s->s_dev = 0; unlock_super(s); return NULL`.
  unfoldable pub give_up : Ptr → M Ptr
  give_up s = do set_super s (λ b. record b { s_dev = 0 }); unlock_super s; pure null

  unfoldable pub release_maps : Ptr → M Void
  release_maps s = do
    b ← super_block s
    put_maps d fuel map_slots b.s_imap 0
    b ← super_block s
    put_maps d fuel map_slots b.s_zmap 0

  -- From the clearing of the slots on.
  unfoldable pub load_all_maps : (dev : ℕ) → Ptr → M Ptr
  unfolding load_maps give_up release_maps
  load_all_maps dev s = do
    set_super s (λ b. record b { s_imap = λ _. null; s_zmap = λ _. null })
    b ← super_block s
    block ← load_maps put_imap b.s_imap_blocks dev s 0 2
    b ← super_block s
    block ← load_maps put_zmap b.s_zmap_blocks dev s 0 block
    b ← super_block s
    if block == 2 + b.s_imap_blocks + b.s_zmap_blocks
        then (do reserve_first (b.s_imap 0); reserve_first (b.s_zmap 0); unlock_super s; pure s)
        else release_maps s >> give_up s

  -- From `lock_super` on.
  unfoldable pub fill_super : (dev : ℕ) → Ptr → M Ptr
  unfolding load_super load_all_maps give_up
  fill_super dev s = do
    lock_super s
    bh ← read_buff d fuel dev 1
    if bh == null then give_up s else (do
      c ← buffer bh
      set_super s (load_super c.b_data)
      put_buff d fuel bh
      b ← super_block s
      if b.s_magic == super_magic then load_all_maps dev s else give_up s)

  unfoldable pub read_super : (dev : ℕ) → M Ptr
  unfolding free_super fill_super
  read_super dev = if dev == 0 then pure null else (do
    old ← find_super d fuel dev
    s ← read (λ k. free_super nr_super k.super_block_list 1)
    if not (old == null) then pure old else if s == null then pure null else (do
      set_super s (λ b. record b {
        s_dev = dev % 2 ^ 16;
        s_isup = null;
        s_imount = null;
        s_time = 0;
        s_rd_only = 0;
        s_dirt = 0;
      })
      fill_super dev s))
