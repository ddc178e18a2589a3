-- ===== src/Inode/Name.antt =====
-- The look-up of inodes by the names in directories, from fs/inode.c. An entry of a directory is 32
-- bytes, the number of an inode and 30 bytes of name. `user` is the memory that `get_fs_byte` reads.
pub mod Entry
use eg_gs.Base.{
  ℕ, zero, suc, ◌+◌, ◌*◌, ◌/◌, ◌%◌, ◌^◌, Bool, true, false, not, ◌&&◌, ◌||◌, ◌-◌, Option, none,
  some, Ram, ltb, leb, ◌==◌, if◌then◌else◌, bit_and,
}
use eg_gs.Kernel.{Kernel, Ptr, null, Inode}
use eg_gs.Kernel.Device.{Device}
use eg_gs.Kernel.Result.{M, Void, ◌>>=◌, ◌>>◌, pure, skip, spin, read, buffer, set_buffer}
use eg_gs.Format.Match.{name_len, match}
use eg_gs.Buffer.{read_buff, put_buff}
use eg_gs.Super.{find_super}
use eg_gs.Super.Bitmap.{get_16}
use eg_gs.Inode.{inode_at, set_inode, root_ino}
use eg_gs.Inode.Disk.{put_16}
use eg_gs.Inode.Life.{create_inode, put_inode, read_inode}
use eg_gs.Inode.Tree.{locate_by_inode}

abbrev pub dir_entry_size : ℕ
dir_entry_size = 32

abbrev pub dir_entries_per_block : ℕ
dir_entries_per_block = 2 ^ 10 / dir_entry_size

-- `S_ISDIR`. `permission` grants everything.
abbrev pub is_dir : ℕ → Bool
is_dir mode = bit_and mode 0xF000 == 0x4000

abbrev pub cut_len : ℕ → ℕ
cut_len namelen = if ltb name_len namelen then name_len else namelen

-- The bytes of a name put at `de`, filled up with zeros.
unfoldable pub put_name : ℕ → (user : Ram ℕ) → (name namelen : ℕ) → Ram ℕ → (de : ℕ) → Ram ℕ
put_name n user name namelen block de p =
    if leb de p && ltb p (de + n)
    then (if ltb p (de + namelen) then user (name + p - de) else 0)
    else block p

module _ (d : Device) (fuel : ℕ) (user : Ram ℕ) where
  -- The buffer of the next block of the directory, in `find_entry` and in the loop of
  -- `create_inode_by_name`: `null` if there is none or it cannot be read.
  unfoldable pub next_block : Ptr → (i : ℕ) → (create : Bool) → M Ptr
  next_block p i create = do
    block ← locate_by_inode d fuel p (i / dir_entries_per_block) create
    dir ← inode_at p
    if block == 0 then pure null else read_buff d fuel dir.i_dev block

  -- The loop of `retain_inode_by_name` from the entry `i` on, which is at `de` in the buffer `bh`: the
  -- buffer and the entry that has the name. After a block that cannot be read, and that is not the
  -- last, the source follows the pointer `bh`, which is `NULL`; what it finds there is not modelled,
  -- and the run ends as one without rounds.
  unfoldable pub find_entry :
      ℕ → Ptr → (name namelen entries : ℕ) → (bh : Ptr) → (de i : ℕ) → M (Ptr × Option ℕ)
  find_entry zero p name namelen entries bh de i = pure (bh, none)
  find_entry (suc n) p name namelen entries bh de i =
      let rest : Ptr → ℕ → M (Ptr × Option ℕ) =
        λ bh de. find_entry n p name namelen entries bh de (i + 1) in
      let test : Ptr → ℕ → M (Ptr × Option ℕ) = λ bh de. do
        b ← buffer bh
        if match false namelen (λ j. user (name + j)) (λ j. b.b_data (de + 2 + j))
            then pure (bh, some de)
            else rest bh (de + dir_entry_size)
      in let turn : M (Ptr × Option ℕ) = do
        put_buff d fuel bh
        bh' ← next_block p i false
        if not (bh' == null)
            then test bh' 0
            else if ltb (i + dir_entries_per_block) entries
            then spin
            else pure (null, none)
        in if not (ltb i entries)
          then pure (bh, none)
          else if leb (2 ^ 10) de
          then turn
          else test bh de

  -- At `..` in the root of a mounted device: the directory that it is mounted on.
  unfoldable pub leave_mount : Ptr → M Ptr
  leave_mount p = do
    dir ← inode_at p
    sb ← find_super d fuel dir.i_dev
    s ← read (λ k. k.super_block_list sb)
    if s.s_imount == null then pure p else (do
      put_inode d fuel p
      s ← read (λ k. k.super_block_list sb)
      set_inode s.s_imount (λ i. record i { i_count = (i.i_count + 1) % 2 ^ 16 })
      pure s.s_imount)

  -- The inode, and the directory that `*inode` is afterwards.
  unfoldable pub retain_inode_by_name : Ptr → (name namelen : ℕ) → M (Ptr × Ptr)
  unfolding find_entry leave_mount
  retain_inode_by_name p name namelen =
      let len = cut_len namelen in
      let look : ℕ → Ptr → M (Ptr × Ptr) = λ entries p. do
        dir ← inode_at p
        bh ← if dir.i_zone 0 == 0 then pure null else read_buff d fuel dir.i_dev (dir.i_zone 0)
        if bh == null then pure (null, p) else (do
          found ← find_entry entries p name len entries bh 0 0
          put_buff d fuel found.0
          b ← buffer found.0
          dir ← inode_at p
          inode ← elim found.1 as (λ _. M Ptr) [
            | none ↦ pure null
            | some de ↦ read_inode d fuel dir.i_dev (get_16 b.b_data de)
          ]
          pure (inode, p))
      in do
        dir ← inode_at p
        if len == 0 then pure (null, p) else (do
          p' ←
              if len == 2 && user name == b'.' && user (name + 1) == b'.' && dir.i_num == root_ino
              then leave_mount p
              else pure p
          look (dir.i_size / dir_entry_size) p')

  -- The loop of `retain_inode_by_path`, which looks at the byte at `pathname`.
  unfoldable pub walk_path : ℕ → (inode res_inode : Ptr) → (thisname namelen pathname : ℕ) → M Ptr
  unfolding retain_inode_by_name
  walk_path zero inode res_inode thisname namelen pathname = spin
  walk_path (suc n) inode res_inode thisname namelen pathname =
      let longer = walk_path n inode res_inode thisname (namelen + 1) (pathname + 1) in
      let go_on : Ptr → M Ptr = λ tmp. walk_path n inode tmp (pathname + 1) 0 (pathname + 1) in
      let component : M Ptr = do
        start ← inode_at inode
        if not (is_dir start.i_mode) then pure null else (do
          found ← retain_inode_by_name res_inode thisname namelen
          if found.0 == null then pure null else put_inode d fuel found.1 >> go_on found.0)
      in if user pathname == 0
        then pure res_inode
        else if not (user pathname == b'/')
        then longer
        else component

  unfoldable pub retain_inode_by_path : Ptr → (pathname : ℕ) → M Ptr
  unfolding walk_path
  retain_inode_by_path inode pathname =
      let start = if user pathname == b'/' then pathname + 1 else pathname in
      if user pathname == 0 then pure null else (do
        set_inode inode (λ i. record i { i_count = (i.i_count + 1) % 2 ^ 16 })
        walk_path fuel inode inode start 0 start)

  -- A free entry at `de` gets the name and a new inode.
  unfoldable pub fill_entry : Ptr → (name namelen : ℕ) → (bh : Ptr) → (de : ℕ) → M Ptr
  fill_entry p name namelen bh de = do
    dir ← inode_at p
    new ← create_inode d fuel dir.i_dev
    if new == null then put_buff d fuel bh >> pure null else (do
      set_inode new (λ i. record i { i_dirt = 1 })
      made ← inode_at new
      set_buffer bh (λ b. record b {
        b_data = put_name name_len user name namelen (put_16 b.b_data de made.i_num) (de + 2);
      })
      set_buffer bh (λ b. record b { b_dirt = 1 })
      put_buff d fuel bh
      pure new)

  -- The loop of `create_inode_by_name`; it meets `NULL` like that of `find_entry`.
  unfoldable pub add_entry : ℕ → Ptr → (name namelen : ℕ) → (bh : Ptr) → (de i : ℕ) → M Ptr
  unfolding fill_entry
  add_entry zero p name namelen bh de i = spin
  add_entry (suc n) p name namelen bh de i =
      let rest : Ptr → ℕ → M Ptr =
        λ bh de. add_entry n p name namelen bh (de + dir_entry_size) (i + 1) in
      let test : Ptr → ℕ → M Ptr = λ bh de. do
        dir ← inode_at p
        if leb dir.i_size (i * dir_entry_size)
            then (do
              set_buffer bh (λ b. record b { b_data = put_16 b.b_data de 0 })
              set_inode p
                  (λ i'. record i' { i_size = (i + 1) * dir_entry_size % 2 ^ 32; i_dirt = 1 }))
            else skip
        b ← buffer bh
        if get_16 b.b_data de == 0 then fill_entry p name namelen bh de else rest bh de
      in let turn : M Ptr = do
        put_buff d fuel bh
        block ← locate_by_inode d fuel p (i / dir_entries_per_block) true
        dir ← inode_at p
        if block == 0 then pure null else (do
          bh' ← read_buff d fuel dir.i_dev block
          if bh' == null then spin else test bh' 0)
        in if leb (2 ^ 10) de then turn else test bh de

  unfoldable pub create_inode_by_name : Ptr → (name namelen : ℕ) → M Ptr
  unfolding add_entry
  create_inode_by_name p name namelen =
      let len = cut_len namelen in
      do
        dir ← inode_at p
        bh ←
            if len == 0 || dir.i_zone 0 == 0
            then pure null
            else read_buff d fuel dir.i_dev (dir.i_zone 0)
        if bh == null then pure null else add_entry fuel p name len bh 0 0
