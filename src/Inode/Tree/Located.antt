-- ===== src/Inode/Tree/Located.antt =====
-- Which block of the device holds block `n` of an inode.
use eg_gs.Base.{
  ℕ, Bool, ◌+◌, ◌-◌, ◌*◌, ◌/◌, ◌%◌, ◌^◌, ◌≤◌, ◌<◌, ◌≡◌, ◌≢◌, ap, subst, sym, true, false, inl, inr,
  Bool-cases, Ram, arith, ◌==◌, ltb, leb, if◌then◌else◌, bit_and, and_mask,
}
use eg_gs.Kernel.{Kernel, Ptr, null}
use eg_gs.Kernel.Device.{Device}
use eg_gs.Kernel.Result.{ok}
use eg_gs.Buffer.{read_buff, put_buff}
use eg_gs.Buffer.Hit.{Cached, waited, held, read_buff-hit, put_buff-held, cached_some}
use eg_gs.Super.Bitmap.{get_16}
use eg_gs.Inode.Tree.{fill_zone, entry_of, locate_by_inode}

-- The block `t` of the device `dev` is in the cache, where fewer than `fuel` steps along its chain
-- find it, and it holds the bytes `bytes_of t`.
pub record Contents (k : Kernel) (dev : ℕ) (fuel : ℕ) (bytes_of : ℕ → Ram ℕ) (t : ℕ) : Type 0 where
  pub bh : Ptr
  pub steps : ℕ
  pub cached : Cached k dev t bh steps
  pub near : steps < fuel
  pub bytes : (k.buffers bh).b_data ≡ bytes_of t

-- The entry `n` of the table in the block `t`; block 0 stands for no table.
unfoldable pub entry : (ℕ → Ram ℕ) → (t n : ℕ) → ℕ
entry contents t n = if t == 0 then 0 else get_16 (contents t) (2 * n)

-- The seven direct blocks, the 512 blocks of one table, and 512 tables of 512 blocks.
unfoldable pub block_of_file : (ℕ → Ram ℕ) → (zone : Ram ℕ) → ℕ → ℕ
unfolding entry
block_of_file contents zone n =
    if ltb n 7
    then zone n
    else if ltb n 519
    then entry contents (zone 7) (n - 7)
    else entry contents (entry contents (zone 8) ((n - 519) / 512)) ((n - 519) % 512)

-- The tables of the inode with these zones are in the cache.
pub record CachedTables (k : Kernel) (dev : ℕ) (fuel : ℕ) (bytes_of : ℕ → Ram ℕ) (zone : Ram ℕ)
    : Type 0 where
  pub single : zone 7 ≢ 0 → Contents k dev fuel bytes_of (zone 7)
  pub double : zone 8 ≢ 0 → Contents k dev fuel bytes_of (zone 8)
  pub below :
      (j : ℕ)
      → j < 512
      → entry bytes_of (zone 8) j ≢ 0
      → Contents k dev fuel bytes_of (entry bytes_of (zone 8) j)

Contents-waited :
    {k : Kernel} {dev fuel : ℕ} {bytes_of : ℕ → Ram ℕ} {t : ℕ}
    → Contents k dev fuel bytes_of t
    → Contents (waited k) dev fuel bytes_of t
Contents-waited c = record {
  bh = c.bh;
  steps = c.steps;
  cached = record {
    present = record {
      chain = c.cached.chain;
      unlocked = c.cached.unlocked;
      users = c.cached.users;
    };
    valid = c.cached.valid;
  };
  near = c.near;
  bytes = c.bytes;
}

entry_of-found :
    (d : Device) (fuel : ℕ) (k : Kernel) (p : Ptr) (t n : ℕ) (bh : Ptr) (bytes_of : Ram ℕ)
    → read_buff d fuel (k.inode_list p).i_dev t k ≡ ok bh (held k bh)
    → (bh == null) ≡ false
    → put_buff d fuel bh (held k bh) ≡ ok tt (waited k)
    → ((held k bh).buffers bh).b_data ≡ bytes_of
    → entry_of d fuel p t n false k ≡ ok (get_16 bytes_of (2 * n)) (waited k)
unfolding entry_of
entry_of-found d fuel k p t n bh bytes_of reads there puts bytes =
    rw (reads, there, puts) (ap (λ m. ok (get_16 m (2 * n)) (waited k)) bytes)

module _ (d : Device) (fuel : ℕ) (k : Kernel) (p : Ptr) (bytes_of : ℕ → Ram ℕ) where
  entry_of-cached :
      (t n : ℕ)
      → Contents k (k.inode_list p).i_dev fuel bytes_of t
      → entry_of d fuel p t n false k ≡ ok (get_16 (bytes_of t) (2 * n)) (waited k)
  entry_of-cached t n c =
      entry_of-found d fuel k p t n c.bh (bytes_of t) (read_buff-hit d fuel c.cached c.near)
        (cached_some d fuel c.cached c.near) (put_buff-held d fuel c.cached c.near)
        (ground (arith, c.bytes))

module _ (d : Device) (fuel : ℕ) (k : Kernel) (p : Ptr) (bytes_of : ℕ → Ram ℕ) where
  abbrev Located : (n : ℕ) → ℕ → Type 0
  Located n r =
      (b : Bool) × (locate_by_inode d fuel p n false k ≡ ok r (record k { interrupts = b }))

  single_block :
      (n : ℕ)
      → 7 ≤ n
      → n < 519
      → ((k.inode_list p).i_zone 7 ≢ 0
          → Contents k (k.inode_list p).i_dev fuel bytes_of ((k.inode_list p).i_zone 7))
      → Located n (entry bytes_of ((k.inode_list p).i_zone 7) (n - 7))
  unfolding locate_by_inode fill_zone entry
  single_block n low high c =
      let inside : leb (7 + 512 + 512 * 512) n ≡ false = ground arith in
      let past : ltb n 7 ≡ false = ground arith in
      let single : ltb (n - 7) 512 ≡ true = ground arith in
      elim (Bool-cases ((k.inode_list p).i_zone 7 == 0)) [
        | inl e ↦ (k.interrupts, rw (inside, past, single, e))
        | inr e ↦
            let found =
              entry_of-cached d fuel k p bytes_of ((k.inode_list p).i_zone 7) (n - 7)
                (c (ground arith)) in
            (false, rw (inside, past, single, e, found))
      ]

  double_block :
      (n : ℕ)
      → 519 ≤ n
      → n < 7 + 512 + 512 * 512
      → CachedTables k (k.inode_list p).i_dev fuel bytes_of (k.inode_list p).i_zone
      → Located n (
          entry bytes_of
            (entry bytes_of ((k.inode_list p).i_zone 8) ((n - 519) / 512))
            ((n - 519) % 512))
  unfolding locate_by_inode fill_zone entry
  double_block n low high tables =
      let t8 = (k.inode_list p).i_zone 8 in
      let inside : leb (7 + 512 + 512 * 512) n ≡ false = ground arith in
      let past : ltb n 7 ≡ false = ground arith in
      let double : ltb (n - 7) 512 ≡ false = ground arith in
      let row : (n - 7 - 512) / 2 ^ 9 ≡ (n - 519) / 512 = omega arith in
      let rest : n - 7 - 512 ≡ n - 519 = omega arith in
      let column : bit_and (n - 519) 511 ≡ (n - 519) % 512 = and_mask 9 (n - 519) in
      elim (Bool-cases (t8 == 0)) [
        | inl e ↦ (k.interrupts, rw (inside, past, double, e))
        | inr e ↦
            let c = tables.double (ground arith) in
            let found = entry_of-cached d fuel k p bytes_of t8 ((n - 519) / 512) c in
            let t = get_16 (bytes_of t8) (2 * ((n - 519) / 512)) in
            elim (Bool-cases (t == 0)) [
              | inl z ↦ (false, rw (inside, past, double, row, e, found, z))
              | inr z ↦
                  let named : entry bytes_of t8 ((n - 519) / 512) ≡ t = rw e in
                  let c' : Contents k (k.inode_list p).i_dev fuel bytes_of t =
                    subst (λ x. x ≢ 0 → Contents k (k.inode_list p).i_dev fuel bytes_of x) named
                      (tables.below ((n - 519) / 512) (omega arith)) (ground arith) in
                  let found' =
                    entry_of-cached d fuel (waited k) p bytes_of t ((n - 519) % 512)
                      (Contents-waited c') in
                  (false, rw (inside, past, double, row, rest, column, e, found, z, found'))
            ]
      ]

  direct_block : (n : ℕ) → n < 7 → Located n ((k.inode_list p).i_zone n)
  unfolding locate_by_inode fill_zone
  direct_block n h =
      let inside : leb (7 + 512 + 512 * 512) n ≡ false = ground arith in
      let direct : ltb n 7 ≡ true = ground arith in (k.interrupts, rw (inside, direct))

  -- `locate_by_inode` without `create`, for a block within the range of an inode whose tables are in
  -- the cache, each in a buffer that is not locked, up to date and used by fewer than 255, with rounds
  -- enough to find each of them, returns the number of the block of the device that the inode's zones
  -- and tables give for it, 0 if they give none. Interrupts may be off afterwards; the buffers and all
  -- else are as they were.
  pub locate_by_inode-block :
      (n : ℕ)
      → n < 7 + 512 + 512 * 512
      → CachedTables k (k.inode_list p).i_dev fuel bytes_of (k.inode_list p).i_zone
      → (b : Bool) × (locate_by_inode d fuel p n false k
          ≡ ok (block_of_file bytes_of (k.inode_list p).i_zone n) (record k { interrupts = b }))
  locate_by_inode-block n h tables =
      let zone = (k.inode_list p).i_zone in
      let is : (r : ℕ)
          → block_of_file bytes_of zone n ≡ r
          → Located n r
          → Located n (block_of_file bytes_of zone n) =
        λ r e l. subst (λ r. Located n r) (sym e) l in
      elim (Bool-cases (ltb n 7)) [
        | inl e ↦ is (zone n) (unfold block_of_file in rw e) (direct_block n (ground arith))
        | inr e ↦ elim (Bool-cases (ltb n 519)) [
          | inl f ↦
              is (entry bytes_of (zone 7) (n - 7)) (unfold block_of_file in rw (e, f))
                (single_block n (ground arith) (ground arith) tables.single)
          | inr f ↦
              is (entry bytes_of (entry bytes_of (zone 8) ((n - 519) / 512)) ((n - 519) % 512))
                (unfold block_of_file in rw (e, f)) (double_block n (ground arith) h tables)
        ]
      ]
