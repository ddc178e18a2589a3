-- ===== src/Buffer/Keep/Blocks.antt =====
-- The block layer leaves the lists of the cache alone.
use eg_gs.Base.{ℕ, zero, suc, refl, Bool, Option, none, some, Ram}
use eg_gs.Kernel.{Kernel, Ptr, BlkDev}
use eg_gs.Kernel.Result.{M, Void, modify, spin}
use eg_gs.Kernel.Device.{Device}
use eg_gs.Blk.{
  add_request, prepare_request, queue_behind, link_after, place_after, fill_request, make_request,
  start_rw, ll_rw_block, free_request, slots, nr_request,
}
use eg_gs.Blk.Lock.{lock_buff, unlock_buff, wait_unlocked, wait_on_buff}
use eg_gs.Buffer.Keep.{
  Keeps, keeping, Keeps-interrupt, Keeps-request_fn, Keeps-elsewhere, Keeps-spin, Keeps-read,
}

pub Keeps-option :
    {A B : Type 0} (o : Option A) (m : M B) (f : A → M B)
    → Keeps m
    → ((a : A) → Keeps (f a))
    → Keeps (elim o as (λ _. M B) [ none ↦ m | some a ↦ f a ])
Keeps-option none m f p q = p
Keeps-option (some a) m f p q = q a

pub lock_buff-Keeps : (bh : Ptr) → Keeps (lock_buff bh)
unfolding lock_buff
lock_buff-Keeps bh = search keeping

pub unlock_buff-Keeps : (bh : Ptr) → Keeps (unlock_buff bh)
unfolding unlock_buff
unlock_buff-Keeps bh = search keeping

wait_unlocked-Keeps : (d : Device) (fuel : ℕ) (bh : Ptr) → Keeps (wait_unlocked d fuel bh)
unfolding wait_unlocked
wait_unlocked-Keeps d zero bh = search keeping
wait_unlocked-Keeps d (suc fuel) bh =
    search (keeping, Keeps-interrupt d, wait_unlocked-Keeps d fuel bh)

pub wait_on_buff-Keeps : (d : Device) (fuel : ℕ) (bh : Ptr) → Keeps (wait_on_buff d fuel bh)
unfolding wait_on_buff
wait_on_buff-Keeps d fuel bh = search (keeping, wait_unlocked-Keeps d fuel bh)

link_after-Keeps : (tmp req : Ptr) → Keeps (link_after tmp req)
unfolding link_after
link_after-Keeps tmp req = search keeping

prepare_request-Keeps : (req : Ptr) → Keeps (prepare_request req)
unfolding prepare_request
prepare_request-Keeps req = search keeping

queue_behind-Keeps : (tmp req : Ptr) → Keeps (queue_behind tmp req)
unfolding queue_behind
queue_behind-Keeps tmp req =
    Keeps-read (λ k. k.requests) _
      (λ rs.
        Keeps-option (place_after nr_request rs tmp req) spin (λ after. link_after after req)
          (Keeps-spin Void) (λ after. link_after-Keeps after req))

Keeps-blk_dev : (f : Kernel → Ram BlkDev) → Keeps (modify (λ k. record k { blk_dev = f k }))
Keeps-blk_dev f = Keeps-elsewhere _ (λ k. (refl, refl, refl, refl))

add_request-Keeps : (d : Device) (major : ℕ) (req : Ptr) → Keeps (add_request d major req)
unfolding add_request
add_request-Keeps d major req =
    search (keeping, prepare_request-Keeps, queue_behind-Keeps, Keeps-request_fn d, Keeps-blk_dev)
      depth 8

fill_request-Keeps : (op : ℕ) (bh req : Ptr) → Keeps (fill_request op bh req)
unfolding fill_request
fill_request-Keeps op bh req = search keeping

make_request-Keeps :
    (d : Device) (fuel cmd : ℕ) (ahead : Bool) (bh : Ptr) → Keeps (make_request d fuel cmd ahead bh)
unfolding make_request
make_request-Keeps d zero cmd ahead bh = search keeping
make_request-Keeps d (suc fuel) cmd ahead bh =
    Keeps-read (λ k. k.requests) _
      (λ rs.
        Keeps-option (free_request (slots cmd) rs) _ _
          (search
            (keeping, unlock_buff-Keeps, Keeps-interrupt d, make_request-Keeps d fuel cmd ahead bh))
          (λ req. search (keeping, fill_request-Keeps, add_request-Keeps d)))

start_rw-Keeps :
    (d : Device) (fuel cmd : ℕ) (ahead : Bool) (bh : Ptr) → Keeps (start_rw d fuel cmd ahead bh)
unfolding start_rw
start_rw-Keeps d fuel cmd ahead bh =
    search (keeping, lock_buff-Keeps, unlock_buff-Keeps, make_request-Keeps d)

pub ll_rw_block-Keeps : (d : Device) (fuel cmd : ℕ) (bh : Ptr) → Keeps (ll_rw_block d fuel cmd bh)
unfolding ll_rw_block
ll_rw_block-Keeps d fuel cmd bh = search (keeping, start_rw-Keeps d) depth 9
