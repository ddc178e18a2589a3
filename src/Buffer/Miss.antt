-- ===== src/Buffer/Miss.antt =====
-- A block that is not in the cache: `get_buff` takes the buffer at the head of the free list.
use eg_gs.Base.{
  ℕ, suc, ◌+◌, ◌<◌, ◌^◌, ◌≡◌, ◌≢◌, refl, ap, sym, ◌∙◌, subst, true, false, inl, inr, Bool-cases,
  some, Ram, arith, ◌==◌,
}
use eg_gs.Kernel.{Kernel, Ptr, null}
use eg_gs.Kernel.Device.{Device}
use eg_gs.Kernel.Result.{Returns-inv, ok}
use eg_gs.Buffer.{
  choose_buff, find_buff, claim_buff, clean_rounds, recycle_buff, new_buff, retain_rounds,
  retain_buff, get_rounds, get_buff,
}
use eg_gs.Buffer.Claim.{Cache, Claimed, claim_buff-Claimed}
use eg_gs.Buffer.Find.{find_buff-finds}
use eg_gs.Buffer.Hit.{waited, wait_on_buff_free}
use eg_gs.Buffer.Queues.Chains.{Chains, Listed}
use eg_gs.Buffer.Queues.Same.{SameLists, SameLists-equal, SameLists-Chains, SameLists-Ring}

-- No buffer holds the block.
abbrev pub Absent : Kernel → (dev block : ℕ) → Type 0
Absent k dev block =
    (p : Ptr) → Listed k null p → (k.buffers p).b_dev ≡ dev → (k.buffers p).b_blocknr ≢ block

-- The buffer can be taken without a wait.
pub record Available (k : Kernel) (bh : Ptr) : Type 0 where
  pub unused : (k.buffers bh).b_count ≡ 0
  pub clean : (k.buffers bh).b_dirt ≡ 0
  pub unlocked : (k.buffers bh).b_lock ≡ 0

waited-Cache :
    {k : Kernel} {n now : ℕ} {nth : ℕ → Ptr} {stamp : Ram ℕ}
    → Cache k n nth stamp now
    → Cache (waited k) n nth stamp now
waited-Cache {k} c = record {
  ring = SameLists-Ring same c.ring;
  chains = SameLists-Chains same c.chains;
}
  where
    same : SameLists null k (waited k)
    same = SameLists-equal null k (waited k) refl refl refl refl

find_buff-Absent :
    (d : Device) (m dev block : ℕ) {k : Kernel} {stamp : Ram ℕ} {now : ℕ}
    → Chains k null stamp now
    → Absent k dev block
    → now + 1 < m
    → find_buff d m dev block k ≡ ok null k
find_buff-Absent d m dev block {k} chains absent enough =
    let (bh, finds, holds, only) = find_buff-finds d m dev block chains enough in
    elim (Bool-cases (bh == null)) [
      | inl e ↦ let none : bh ≡ null = ground arith in finds ∙ ap (λ p. ok p k) none
      | inr e ↦
          let (listed, same) = holds (ground arith) in
          absurd (absent bh listed (ground arith) (ground arith))
    ]

choose_buff-first :
    (m : ℕ) (k : Kernel)
    → Available k k.free_list
    → choose_buff (suc m) k k.free_list null ≡ some k.free_list
unfolding choose_buff
choose_buff-first m k free = ground (arith, free.unused, free.clean, free.unlocked)

clean_rounds-clean :
    (d : Device) (fuel m : ℕ) (k : Kernel) (bh : Ptr)
    → (k.buffers bh).b_dirt ≡ 0
    → clean_rounds d fuel (suc m) bh k ≡ ok true k
unfolding clean_rounds
clean_rounds-clean d fuel m k bh h = ground arith

module _ (d : Device) (m : ℕ) {k : Kernel} {dev block n now : ℕ} {nth : ℕ → Ptr} {stamp : Ram ℕ}
    (cache : Cache k n nth stamp now) (absent : Absent k dev block) (enough : now + 1 < suc m)
    (free : Available k (nth 0)) where
  not_found : find_buff d (suc m) dev block k ≡ ok null k
  not_found = find_buff-Absent d (suc m) dev block cache.chains absent enough

  retain_buff-Absent : retain_buff d (suc m) dev block k ≡ ok null k
  unfolding retain_buff retain_rounds
  retain_buff-Absent = rw not_found refl

  module _ (k' : Kernel)
      (claims : claim_buff d (suc m) dev block (nth 0) (waited k) ≡ ok tt k') where
    recycle_buff-first : recycle_buff d (suc m) dev block (nth 0) k ≡ ok (nth 0) k'
    unfolding recycle_buff
    recycle_buff-first =
        let still =
          find_buff-Absent d (suc m) dev block {k = waited k} (waited-Cache cache).chains absent
            enough in
        let unused : ((k.buffers (nth 0)).b_count == 0) ≡ true = ground (arith, free.unused) in
        rw
          (
            wait_on_buff_free d (suc m) k (nth 0) (omega arith) free.unlocked,
            unused,
            clean_rounds-clean d (suc m) m (waited k) (nth 0) free.clean,
            still,
            claims,
          )
          refl

    new_buff-first : new_buff d (suc m) dev block k ≡ ok (nth 0) k'
    unfolding new_buff
    new_buff-first =
        let there : (nth 0 == null) ≡ false =
          ground (arith, cache.ring.not_null 0 cache.ring.inhabited) in
        let chosen : choose_buff (suc m) k k.free_list null ≡ some (nth 0) =
          choose_buff-first m k (subst (Available k) (sym cache.ring.head) free)
          ∙ ap (λ p. some p) cache.ring.head in
        rw (new_buff, chosen) (rw (there, recycle_buff-first) refl)

    get_buff-first : get_buff d (suc m) dev block k ≡ ok (nth 0) k'
    unfolding get_buff get_rounds
    get_buff-first =
        let there : (nth 0 == null) ≡ false =
          ground (arith, cache.ring.not_null 0 cache.ring.inhabited) in
        rw (retain_buff-Absent, new_buff-first) (rw there refl)

  -- If the lists are in order, no buffer holds the block, the buffer at the head of the free list is
  -- unused, clean and unlocked, and the rounds are enough to search a chain: `get_buff` returns that buffer,
  -- claimed for the block.
  pub get_buff-Claimed :
      dev < 2 ^ 16
      → (k' : Kernel) × (get_buff d (suc m) dev block k ≡ ok (nth 0) k')
        × Claimed (waited k) n 0 nth stamp now dev block k'
  get_buff-Claimed small =
      let (_, k', claims, c) = Returns-inv (
        claim_buff-Claimed d (suc m) dev block 0 (waited-Cache cache) cache.ring.inhabited small
          absent) in
      (k', get_buff-first k' claims, c)
