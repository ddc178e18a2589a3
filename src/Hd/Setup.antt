-- ===== src/Hd/Setup.antt =====
-- `init_hd_info` of blk/hd.c: the drives from the table that the boot loader leaves, and their
-- partitions from the first block of each drive.
use eg_gs.Base.{
  ℕ, zero, suc, ◌+◌, ◌*◌, ◌-◌, ◌%◌, ◌^◌, Bool, not, ◌||◌, Ram, List, update, ltb, ◌==◌,
  if◌then◌else◌,
}
use eg_gs.Kernel.{Ptr, null, Io}
use eg_gs.Kernel.Device.{Device}
use eg_gs.Kernel.Result.{M, Void, ◌>>=◌, ◌>>◌, pure, skip, fail, read, modify, buffer}
use eg_gs.Buffer.{read_buff, put_buff}
use eg_gs.Buffer.Ahead.{max_hd}
use eg_gs.Super.Bitmap.{get_32, get_16}
use eg_gs.Hd.Driver.{enable_hd}

abbrev pub set_partition : (index start nr : ℕ) → M Void
set_partition index start nr = modify λ k. record k {
  partition_info = update k.partition_info index (record { start_sect = start; nr_sects = nr });
}

-- The first loop, over the table in the memory `mem`, with `n` drives left.
unfoldable pub scan_drives :
    ℕ → (mem : Ram ℕ) → (drives_length : ℕ) → (drive drives_addr size : ℕ) → M Void
scan_drives zero mem drives_length drive drives_addr size = skip
scan_drives (suc n) mem drives_length drive drives_addr size =
    let entry = get_32 mem drives_addr in
    let size' = (size + entry) % 2 ^ 32 in
    let rest = scan_drives n mem drives_length (drive + 1) ((drives_addr + entry) % 2 ^ 32) size' in
    do
      modify (λ k. record k {
        hd_info = update k.hd_info drive (record {
          head = mem (8 + drives_addr);
          sect = mem (9 + drives_addr);
          cyl = get_16 mem (6 + drives_addr);
        });
        nr_hd = k.nr_hd + 1;
      })
      if ltb drives_length size' then rest else skip

-- The whole drive as its partition 0, from the drive `i` on.
unfoldable pub whole_drives : ℕ → (i : ℕ) → M Void
whole_drives zero i = skip
whole_drives (suc n) i =
    let rest = whole_drives n (i + 1) in
    do
      info ← read (λ k. k.hd_info i)
      set_partition (i * 5) 0 (info.head * info.sect * info.cyl % 2 ^ 32)
      rest

-- The four entries of the partition table, from the entry `i` on, which is at `p`.
unfoldable pub read_partitions : ℕ → (drive : ℕ) → Ptr → (i p : ℕ) → M Void
read_partitions zero drive bh i p = skip
read_partitions (suc n) drive bh i p =
    let rest = read_partitions n drive bh (i + 1) (p + 16) in
    do
      b ← buffer bh
      set_partition (i + 5 * drive) (get_32 b.b_data (p + 8)) (get_32 b.b_data (p + 12))
      rest

module _ (d : Device) (fuel : ℕ) where
  unfoldable pub read_tables : ℕ → (drive : ℕ) → M Void
  unfolding read_partitions
  read_tables zero drive = skip
  read_tables (suc n) drive =
      let rest = read_tables n (drive + 1) in
      do
        bh ← read_buff d fuel (0x300 + drive * 5) 0
        b ← buffer bh
        if bh == null
            then fail ""
            else if not (b.b_data 510 == 0x55) || not (b.b_data 511 == 0xAA)
            then fail ""
            else (do read_partitions 4 drive bh 1 0x1BE; put_buff d fuel bh; rest)

  -- The static variable `callable` is a parameter; 2^32 - 1 is -1.
  unfoldable pub init_hd_info :
      (answer : List Io → (port : ℕ) → ℕ)
      → (callable : Bool) → (mem : Ram ℕ) → (drives_addr drives_length : ℕ) → M ℕ
  unfolding scan_drives whole_drives read_tables
  init_hd_info answer callable mem drives_addr drives_length = do
    enable_hd answer
    if not callable then pure (2 ^ 32 - 1) else (do
      scan_drives max_hd mem drives_length 0 drives_addr 0
      n ← read (λ k. k.nr_hd)
      whole_drives n 0
      read_tables n 0
      pure 0)
