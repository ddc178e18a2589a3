-- ===== src/Blk/Elevator/Sweep.antt =====
-- What `add_request` does to the queue of a busy device.
use mathlib.Core.List.{Perm}
use eg_gs.Base.{ℕ, ◌≤◌, ◌<◌, ◌≡◌, ◌≢◌, subst, true, false, List, [], ◌∷◌, ◌++◌, has, length, arith}
use eg_gs.Kernel.{Kernel, Ptr, null}
use eg_gs.Kernel.Device.{Device}
use eg_gs.Kernel.Result
use eg_gs.Kernel.Result.{Returns}
use eg_gs.Blk.{in_order, add_request, nr_request}
use eg_gs.Blk.Elevator.{IsQueue, insert}
use eg_gs.Blk.Elevator.Insert.{add_request-insert}
use eg_gs.Blk.Elevator.Order.{
  descents, AllDiffer, insert_sweep, insert_last, descents-congr, perm-insert,
}

-- The queue of the device after `a`, the request in progress.
pub record Pending (k : Kernel) (major : ℕ) (a : Ptr) (qs : List Ptr) : Type 0 where
  pub queue : IsQueue k.requests (k.blk_dev major).current_request (a ∷ qs)
  pub room : length qs < nr_request

-- One request more behind `a`, in at most two sweeps.
pub record Added (k : Kernel) (major : ℕ) (req a : Ptr) (qs : List Ptr) (k' : Kernel) : Type 0 where
  pub now : List Ptr
  pub queue : IsQueue k'.requests (k'.blk_dev major).current_request (a ∷ now)
  pub all : Perm now (req ∷ qs)
  pub sweep : descents k'.requests a now ≤ 1

module _ (d : Device) (k : Kernel) (major : ℕ) (req a : Ptr) (qs : List Ptr)
    (p : Pending k major a qs) (fresh : has req (a ∷ qs) ≡ false) (ne : req ≢ null) where
  -- On a busy device with fewer than `nr_request` requests waiting, in at most two ascending sweeps,
  -- `add_request` of a request that differs from each of them in command, device or sector returns.
  -- The request in progress stays first, the queue behind it holds the old requests and the new one
  -- and no other, and it still is at most two ascending sweeps.
  pub add_request_sweep :
      AllDiffer k.requests req qs
      → descents k.requests a qs ≤ 1
      → Returns (λ _ k'. Added k major req a qs k') (add_request d major req k)
  add_request_sweep new h =
      Result.weaken (add_request-insert d k major req a qs p.queue fresh ne p.room) λ _ k' q.
        record {
          now = insert k.requests req a qs;
          queue = q.queue;
          all = perm-insert k.requests req a qs;
          sweep = omega (
            arith,
            descents-congr k.requests k'.requests a (insert k.requests req a qs) q.same_order,
            insert_sweep k.requests req a qs new h,
          );
        }

  -- On a busy device whose queue is one ascending sweep, a request that is before the one in
  -- progress goes behind all others; so a read does not overtake the writes of that sweep.
  pub add_request_behind :
      descents k.requests a qs ≡ 0
      → in_order (k.requests req) (k.requests a) ≡ true
      → Returns
          (λ _ k'. IsQueue k'.requests (k'.blk_dev major).current_request (a ∷ qs ++ (req ∷ [])))
          (add_request d major req k)
  add_request_behind h before =
      Result.weaken (add_request-insert d k major req a qs p.queue fresh ne p.room) λ _ k' q.
        subst (λ l. IsQueue k'.requests (k'.blk_dev major).current_request (a ∷ l))
          (insert_last k.requests req a qs h before) q.queue
