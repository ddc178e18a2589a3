-- ===== src/Hd/Fetch/Load.antt =====
-- `read_buff` of a block that is not in the cache, from the search of the cache to the last interrupt.
use eg_gs.Base.{
  ℕ, suc, ◌+◌, ◌/◌, ◌%◌, ◌^◌, ◌<◌, ◌≡◌, ◌≢◌, refl, ◌∙◌, Ram, List, arith, true, inl, inr,
  Bool-cases, ◌-◌, ◌≤◌, subst, sym, ltb,
}
use eg_gs.Kernel.{Kernel, Ptr, null, Io}
use eg_gs.Kernel.Result.{Returns, weaken, byte}
use eg_gs.Blk.{minor_of}
use eg_gs.Buffer.{read_buff}
use eg_gs.Buffer.Claim.{Cache, Claimed, SameDriver}
use eg_gs.Buffer.Hit.{waited}
use eg_gs.Buffer.Miss.{Absent, Available, get_buff-Claimed}
use eg_gs.Hd.Driver.{disk}
use eg_gs.Hd.Serve.{AlwaysReady, Sends, block_of}
use eg_gs.Hd.Fetch.{Reachable, Fetchable, sector_at, sector_of}
use eg_gs.Hd.Fetch.Read.{Fetched, read_buff-from}

-- The buffer holds the block, with its bytes as they are on the disk, for one user.
pub record Loaded (content : (drive lba : ℕ) → Ram ℕ) (k : Kernel) (dev block : ℕ) (bh : Ptr)
    (k' : Kernel) : Type 0 where
  pub is_dev : (k'.buffers bh).b_dev ≡ dev
  pub is_block : (k'.buffers bh).b_blocknr ≡ block
  pub one_user : (k'.buffers bh).b_count ≡ 1
  pub valid : (k'.buffers bh).b_uptodate ≡ 1
  pub unlocked : (k'.buffers bh).b_lock ≡ 0
  pub bytes :
      (q : ℕ)
      → q < 1024
      → (k'.buffers bh).b_data q
        ≡ byte (content (minor_of dev / 5) (sector_at k dev block + q / 512) (q % 512))

Reachable-SameDriver :
    (k k1 : Kernel) (dev block req : ℕ)
    → SameDriver k k1
    → Reachable k dev block req
    → Reachable k1 dev block req
Reachable-SameDriver k k1 dev block req s r = record {
  major = r.major;
  driver = rw s.same_blk_dev r.driver;
  idle = rw s.same_blk_dev r.idle;
  slot = rw s.same_requests r.slot;
  partition = rw s.same_nr r.partition;
  drives = rw s.same_nr r.drives;
  small = r.small;
  inside = rw s.same_partitions r.inside;
  short = rw s.same_partitions r.short;
  sectors = rw s.same_info r.sectors;
  sectors_byte = rw s.same_info r.sectors_byte;
  heads = rw s.same_info r.heads;
  heads_bits = rw s.same_info r.heads_bits;
  cylinders = rw (s.same_partitions, s.same_info) r.cylinders;
}

waited-Reachable :
    {k : Kernel} {dev block req : ℕ}
    → Reachable k dev block req
    → Reachable (waited k) dev block req
waited-Reachable {k} r =
    Reachable-SameDriver k (waited k) _ _ _
      (record {
        same_requests = refl;
        same_blk_dev = refl;
        same_info = refl;
        same_nr = refl;
        same_partitions = refl;
        same_reset = refl;
        same_recalibrate = refl;
      })
      r

block_of-lt :
    (content : (drive lba : ℕ) → Ram ℕ) (drive lba : ℕ) (old : Ram ℕ) (q : ℕ)
    → q < 1024
    → block_of content drive lba old q ≡ byte (content drive (lba + q / 512) (q % 512))
block_of-lt content drive lba old q h = elim (Bool-cases (ltb q 512)) [
  | inl e ↦
      let low : q < 512 = ground arith in
      let sector : lba + q / 512 ≡ lba = omega arith in
      let place : q % 512 ≡ q = omega arith in rw (e, sector, place) refl
  | inr e ↦
      let high : 512 ≤ q = ground arith in
      let inside : ltb q 1024 ≡ true = ground arith in
      let sector : lba + q / 512 ≡ lba + 1 = omega arith in
      let place : q % 512 ≡ q - 512 = omega arith in rw (e, inside, sector, place) refl
]

Claimed-Fetchable :
    {k k1 : Kernel} {n j now dev block : ℕ} {nth : ℕ → Ptr} {stamp : Ram ℕ} (req : Ptr)
    → nth j ≢ null
    → Claimed (waited k) n j nth stamp now dev block k1
    → Reachable k dev block req
    → Fetchable k1 (nth j) req
Claimed-Fetchable {k} {k1} {dev = dev} {block} req real c r = record {
  real = real;
  stale = c.fresh.1;
  block =
      rw (c.holds.0, c.holds.1)
        (Reachable-SameDriver _ k1 dev block req c.same_driver (waited-Reachable r));
}

Fetched-Loaded :
    (content : (drive lba : ℕ) → Ram ℕ) {k k1 k' : Kernel} {n j now dev block : ℕ} {nth : ℕ → Ptr}
    {stamp : Ram ℕ} (req : Ptr)
    → Claimed (waited k) n j nth stamp now dev block k1
    → Fetched content k1 (nth j) req k'
    → Loaded content k dev block (nth j) k'
Fetched-Loaded content {k} {k1} {k'} {n} {j} {dev = dev} {block} {nth} req c f = record {
  is_dev = f.same_dev ∙ c.holds.0;
  is_block = f.same_blocknr ∙ c.holds.1;
  one_user = f.same_count ∙ c.fresh.0;
  valid = f.valid;
  unlocked = f.unlocked;
  bytes = λ q h.
      f.bytes q
      ∙ block_of-lt content (minor_of (k1.buffers (nth j)).b_dev / 5) (sector_of k1 (nth j))
          (k1.buffers (nth j)).b_data q h
      ∙ rw (c.holds.0, c.holds.1, c.same_driver.same_partitions) refl;
}

module _ (answer : List Io → (port : ℕ) → ℕ) (stream : List Io → Ram ℕ)
    (content : (drive lba : ℕ) → Ram ℕ) (ready : AlwaysReady answer) where
  -- The disk's driver is installed, with at most two drives, and idle, a request slot is free, and
  -- neither a reset nor a recalibration is due; at every poll the drive is ready and reports no error
  -- (it may have data to transfer), and it sends the sectors it is asked for; it has 1 to 16 heads, 1
  -- to 255 sectors on a track, and a cylinder number below 2 ^ 16 at the block. The lists of the cache
  -- are in order. Then for a block of a partition of that disk that no buffer holds, with a device
  -- number below 2 ^ 16 and sector numbers below 2 ^ 32: if the buffer at the head of the free list is
  -- unused, clean and unlocked, and the rounds are at least three and enough to search a chain,
  -- `read_buff` returns that buffer. It then holds the block for one user, up to date and unlocked,
  -- with the 1024 bytes that the disk has there.
  pub read_buff-Loaded :
      (n m : ℕ) {k : Kernel} {dev block req size now : ℕ} {nth : ℕ → Ptr} {stamp : Ram ℕ}
      → Sends stream k.hd_info content
      → k.reset ≡ 0
      → k.recalibrate ≡ 0
      → Cache k size nth stamp now
      → now + 1 < suc (suc (suc m))
      → Absent k dev block
      → Available k (nth 0)
      → dev < 2 ^ 16
      → Reachable k dev block req
      → Returns
          (λ p k'. (p ≡ nth 0) × Loaded content k dev block (nth 0) k')
          (read_buff (disk answer stream (suc n)) (suc (suc (suc m))) dev block k)
  read_buff-Loaded n m {k} {dev} {block} {req} {size} {now} {nth} {stamp} sends calm calibrated
        cache enough absent free small reach =
      let d = disk answer stream (suc n) in
      let (k1, gets, c) = get_buff-Claimed d (suc (suc m)) cache absent enough free small in
      let s = c.same_driver in
      let f =
        Claimed-Fetchable {k = k} {k1 = k1} req (cache.ring.not_null 0 cache.ring.inhabited) c
          reach in
      weaken
        (read_buff-from answer stream content ready n m k k1 dev block (nth 0) req
          (subst (λ x. Sends stream x content) (sym s.same_info) sends) (s.same_reset ∙ calm)
          (s.same_recalibrate ∙ calibrated) gets f)
        (λ p k' (e, g). (e, Fetched-Loaded content req c g))
