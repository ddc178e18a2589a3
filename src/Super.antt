-- ===== src/Super.antt =====
-- fs/super.c: the table of mounted devices and the two bitmaps of each.
pub mod Alloc
pub mod Bitmap
pub mod Cycle
pub mod Find
pub mod Free
pub mod Mount
pub mod Search
pub mod Take
use eg_gs.Base.{
  ℕ, zero, suc, ◌+◌, ◌-◌, ◌*◌, ◌/◌, ◌%◌, ◌^◌, Bool, true, false, not, ◌&&◌, ◌||◌, Option, none,
  some, Ram, update, ltb, leb, ◌==◌, if◌then◌else◌, bit_or,
}
use eg_gs.Kernel.{Kernel, Ptr, null, SuperBlock}
use eg_gs.Kernel.Device.{Device}
use eg_gs.Kernel.Result.{
  M, Void, ◌>>=◌, ◌>>◌, pure, skip, fail, spin, read, modify, buffer, set_buffer, set_interrupts,
}
use eg_gs.Buffer.{read_buff, put_buff}
use Bitmap.{get_16, get_32, block_bits, find_first_zero, set_bit, clear_bit, bit_at}

abbrev pub nr_super : ℕ
nr_super = 8

abbrev pub map_slots : ℕ
map_slots = 8

abbrev pub super_magic : ℕ
super_magic = 0x138F

abbrev pub root_dev : ℕ
root_dev = 0x301

abbrev pub super_block : Ptr → M SuperBlock
super_block sb = read λ k. k.super_block_list sb

abbrev pub set_super : Ptr → (SuperBlock → SuperBlock) → M Void
set_super sb f =
    modify
      λ k. record k { super_block_list = update k.super_block_list sb (f (k.super_block_list sb)) }

-- `while (sb->s_lock) sb->s_lock = 1;` does not take a free lock, and never ends on a taken one.
unfoldable pub lock_super : Ptr → M Void
lock_super sb = do
  set_interrupts false
  s ← super_block sb
  if s.s_lock == 0 then skip else spin
  set_interrupts true

unfoldable pub unlock_super : Ptr → M Void
unlock_super sb = do
  set_interrupts false
  set_super sb (λ s. record s { s_lock = 0 })
  set_interrupts true

-- What the search of a bitmap's blocks ends with: the last block looked at, the bit found in it or
-- `block_bits`, and the block's index.
pub record Scan : Type 0 where
  pub bh : Ptr
  pub j : ℕ
  pub i : ℕ

-- The loop of `add_inode_bitmap` and `add_zone_bitmap` with `n` blocks left. Before the first block
-- `bh` has no value; `null` stands for it and is not used, since `j` is 8192 then.
unfoldable pub scan_maps : ℕ → Kernel → Ram Ptr → (i : ℕ) → (bh : Ptr) → (j : ℕ) → Scan
scan_maps zero k maps i bh j = record { bh = bh; j = j; i = i }
scan_maps (suc n) k maps i bh j =
    let p = maps i in
    let z = find_first_zero (k.buffers p).b_data in
    let next = scan_maps n k maps (i + 1) p (if p == null then j else z) in
    if not (p == null) && ltb z block_bits then record { bh = p; j = z; i = i } else next

-- `set_bit` with the test of its result, and the block marked dirty. The message is without the name
-- of the function that it begins with.
unfoldable pub take_bit : Ptr → ℕ → M Void
take_bit bh j = do
  b ← buffer bh
  if bit_at b.b_data j == 1
      then fail "bit already set"
      else set_buffer bh (λ b. record b { b_data = set_bit b.b_data j; b_dirt = 1 })

-- The end of both searches: 0 if no bit was found, or one whose number `value` is out of range.
unfoldable pub take_scanned : Scan → (beyond : Bool) → (value : ℕ) → M ℕ
unfolding take_bit
take_scanned f beyond value =
    if f.bh == null || leb block_bits f.j || beyond then pure 0 else take_bit f.bh f.j >> pure value

-- `clear_bit` on a bit that is clear already only prints a line.
unfoldable pub drop_bit : Ptr → ℕ → M Void
drop_bit bh n = set_buffer bh (λ b. record b { b_data = clear_bit b.b_data n; b_dirt = 1 })

module _ (d : Device) (fuel : ℕ) where
  unfoldable pub wait_super_rounds : ℕ → Ptr → M Void
  wait_super_rounds zero sb = spin
  wait_super_rounds (suc n) sb =
      let again = wait_super_rounds n sb in
      do
        s ← super_block sb
        if s.s_lock == 0 then skip else set_interrupts true >> d.interrupt >> again

  unfoldable pub wait_on_super : Ptr → M Void
  unfolding wait_super_rounds
  wait_on_super sb = set_interrupts false >> wait_super_rounds fuel sb

  -- The loop of `find_super` at the super block `s`; one found in use elsewhere after the wait
  -- starts it again.
  unfoldable pub find_super_from : ℕ → (dev : ℕ) → Ptr → M Ptr
  find_super_from zero dev s = spin
  find_super_from (suc n) dev s =
      let next = find_super_from n dev (s + 1) in
      let restart = find_super_from n dev 1 in
      let found : M Ptr = do
        wait_on_super s
        b ← super_block s
        if b.s_dev == dev then pure s else restart
      in do
        b ← super_block s
        if leb s nr_super then (if b.s_dev == dev then found else next) else pure null

  unfoldable pub find_super : ℕ → M Ptr
  unfolding find_super_from wait_on_super
  find_super dev = if dev == 0 then pure null else find_super_from fuel dev 1

  unfoldable pub put_maps : ℕ → Ram Ptr → ℕ → M Void
  put_maps zero maps i = skip
  put_maps (suc n) maps i = let rest = put_maps n maps (i + 1) in put_buff d fuel (maps i) >> rest

  unfoldable pub put_super : ℕ → M Void
  unfolding put_maps
  put_super dev = if dev == root_dev then skip else (do
    sb ← find_super dev
    s ← super_block sb
    if sb == null
        then skip
        else if s.s_imount == null
        then (do
          lock_super sb
          set_super sb (λ s. record s { s_dev = 0 })
          s ← super_block sb
          put_maps map_slots s.s_imap 0
          s ← super_block sb
          put_maps map_slots s.s_zmap 0
          unlock_super sb)
        else skip)

  unfoldable pub add_inode_bitmap : ℕ → M ℕ
  unfolding scan_maps take_scanned
  add_inode_bitmap dev = do
    sb ← find_super dev
    s ← super_block sb
    if sb == null then fail "trying to get add_inode_bitmap from nonexistant device" else (do
      f ← read (λ k. scan_maps s.s_imap_blocks k s.s_imap 0 null block_bits)
      let imap_pos = f.j + f.i * block_bits
      take_scanned f (ltb s.s_ninodes imap_pos) imap_pos)

  unfoldable pub free_inode_bitmap : (dev inode_num : ℕ) → M Void
  unfolding drop_bit
  free_inode_bitmap dev inode_num = do
    sb ← find_super dev
    s ← super_block sb
    if sb == null
        then fail "trying to free inode on nonexistent device"
        else if ltb inode_num 1 || ltb s.s_ninodes inode_num
        then fail "trying to free inode 0 or nonexistant inode"
        else if s.s_imap (inode_num / 2 ^ 13) == null
        then fail "nonexistent imap in superblock"
        else drop_bit (s.s_imap (inode_num / 2 ^ 13)) (inode_num % block_bits)

  -- `block` is computed as an `int`: `(j + i * 8192 - 1) + s_firstdatazone`.
  unfoldable pub add_zone_bitmap : ℕ → M ℕ
  unfolding scan_maps take_scanned
  add_zone_bitmap dev = do
    sb ← find_super dev
    s ← super_block sb
    if sb == null then fail "trying to get new block from nonexistant device" else (do
      f ← read (λ k. scan_maps s.s_zmap_blocks k s.s_zmap 0 null block_bits)
      let sum = f.j + f.i * block_bits + s.s_firstdatazone
      take_scanned f (ltb (s.s_nzones + 1) sum) ((sum + 2 ^ 32 - 1) % 2 ^ 32))

  -- `block -= s_firstdatazone - 1` on an `unsigned int`.
  unfoldable pub free_zone_bitmap : (dev block : ℕ) → M Void
  unfolding drop_bit
  free_zone_bitmap dev block = do
    sb ← find_super dev
    s ← super_block sb
    let bit = (block + 1 + 2 ^ 32 - s.s_firstdatazone) % 2 ^ 32
    if sb == null
        then fail "trying to free block on nonexistent device"
        else if ltb block s.s_firstdatazone || leb s.s_nzones block
        then fail "trying to free block not in datazone"
        else if s.s_zmap (bit / 2 ^ 13) == null
        then fail "nonexistent zmap in superblock"
        else drop_bit (s.s_zmap (bit / 2 ^ 13)) (bit % block_bits)
