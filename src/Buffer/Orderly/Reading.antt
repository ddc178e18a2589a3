-- ===== src/Buffer/Orderly/Reading.antt =====
-- `read_buff` and the lists of the cache, whatever the driver does.
use eg_gs.Base.{ℕ, ◌^◌, ◌<◌, ◌≢◌, refl, Bool-cases, inl, inr, arith, ◌==◌, if◌then◌else◌}
use eg_gs.Kernel.{Kernel, Ptr, null}
use eg_gs.Kernel.Result.{Ensures, Ensures-bind, pure, ◌>>◌}
use eg_gs.Kernel.Device.{Device}
use eg_gs.Buffer.{get_buff, read_buff, put_buff}
use eg_gs.Blk.Lock.{wait_on_buff}
use eg_gs.Blk.{ll_rw_block, cmd_read}
use eg_gs.Buffer.Queues.Same.{SameLists, SameLists-trans}
use eg_gs.Buffer.Keep.{Keeps}
use eg_gs.Buffer.Keep.Blocks.{wait_on_buff-Keeps, ll_rw_block-Keeps}
use eg_gs.Buffer.Orderly.{Orderly, Orderly-same, Got, Got-null, get_rounds-Got}
use eg_gs.Buffer.Keep.Cached.{put_buff-Keeps}

-- What `read_buff` returns: the lists are in order, and a buffer that is returned holds the block and is
-- up to date.
abbrev pub Read : (n dev block : ℕ) → Ptr → Kernel → Type 0
Read n dev block bh k = Got n dev block bh k × (bh ≢ null → (k.buffers bh).b_uptodate ≢ 0)

Got-same :
    (n dev block : ℕ) {k k' : Kernel} (bh : Ptr)
    → SameLists null k k'
    → Got n dev block bh k
    → Got n dev block bh k'
Got-same n dev block bh s (o, holds) =
    (Orderly-same s o, λ z. rw (s.dev bh z, s.block bh z) (holds z))

module _ (d : Device) (fuel n dev block : ℕ) where
  give_back-Read :
      (k : Kernel) (bh : Ptr)
      → Orderly n k
      → Ensures (Read n dev block) ((put_buff d fuel bh >> pure null) k)
  give_back-Read k bh o =
      Ensures-bind (λ _ k'. SameLists null k k') (Read n dev block) (put_buff d fuel bh k)
        (λ _. pure null) (unfold Keeps in put_buff-Keeps d fuel bh k)
        (λ _ k' s. (Got-null n dev block (Orderly-same s o), λ z. absurd (z refl)))

  fetched-Read :
      (k : Kernel) (bh : Ptr)
      → Got n dev block bh k
      → Ensures
          (Read n dev block)
          ((if (k.buffers bh).b_uptodate == 0 then put_buff d fuel bh >> pure null else pure bh) k)
  fetched-Read k bh g = elim (Bool-cases ((k.buffers bh).b_uptodate == 0)) [
    | inl e ↦ rw e (give_back-Read k bh g.0)
    | inr e ↦ rw e (g, λ _. ground (arith, e))
  ]

  -- If the free list is a ring, the chains are in order and the device is below 2 ^ 16, then
  -- `read_buff` leaves the lists so, whenever it returns; and a buffer that it returns holds the block
  -- and is up to date. This is for every driver that keeps the laws of the interface `Device`: it
  -- changes no buffer's block, dirt, users or links, and no list head.
  pub read_buff-Read :
      (k : Kernel)
      → dev < 2 ^ 16
      → Orderly n k
      → Ensures (Read n dev block) (read_buff d fuel dev block k)
  unfolding read_buff
  read_buff-Read k small o =
      Ensures-bind (Got n dev block) (Read n dev block) (get_buff d fuel dev block k) _
        (unfold get_buff in get_rounds-Got d fuel n dev block small fuel k o)
        (λ bh k1 g. elim (Bool-cases (bh == null)) [
          | inl z ↦ rw z tt
          | inr z ↦ elim (Bool-cases ((k1.buffers bh).b_uptodate == 0)) [
            | inl e ↦
                rw (z, e)
                  (Ensures-bind (λ _ k2. SameLists null k1 k2) (Read n dev block)
                    (ll_rw_block d fuel cmd_read bh k1) _
                    (unfold Keeps in ll_rw_block-Keeps d fuel cmd_read bh k1)
                    (λ _ k2 s.
                      Ensures-bind (λ _ k3. SameLists null k2 k3) (Read n dev block)
                        (wait_on_buff d fuel bh k2) _
                        (unfold Keeps in wait_on_buff-Keeps d fuel bh k2)
                        (λ _ k3 t.
                          fetched-Read k3 bh (Got-same n dev block bh (SameLists-trans s t) g))))
            | inr e ↦ rw (z, e) (g, λ _. ground (arith, e))
          ]
        ])
