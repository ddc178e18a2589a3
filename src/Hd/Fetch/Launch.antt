-- ===== src/Hd/Fetch/Launch.antt =====
-- `ll_rw_block` on an idle disk calls the driver with the request of the block.
use eg_gs.Base.{
  ℕ, suc, ◌≡◌, ◌≢◌, refl, ap, ◌∙◌, true, false, not, ◌||◌, Option, none, some, arith, leb, ◌==◌,
}
use eg_gs.Kernel.{Kernel, Ptr, null}
use eg_gs.Kernel.Device.{Device}
use eg_gs.Kernel.Result.{M, Void, buffer, ◌>>=◌, ◌>>◌}
use eg_gs.Blk.{
  major_of, cmd_read, nr_request, nr_blk_dev, slots, free_request, fill_request, make_request,
  start_rw, ll_rw_block, add_request,
}
use eg_gs.Blk.Elevator.Insert.{prepare_request_lem}
use eg_gs.Blk.Slots.{free_request-low}
use eg_gs.Blk.Lock.{lock_buff}
use eg_gs.Hd.{hd_major}
use eg_gs.Hd.Serve.{Awaits}
use eg_gs.Hd.Fetch.{Fetchable, launched, locked, filled, fetch_job}

make_request_slot :
    (d : Device) (n cmd : ℕ) (bh req : Ptr) (k : Kernel)
    → free_request (slots cmd) k.requests ≡ some req
    → make_request d (suc n) cmd false bh k
      ≡ (do fill_request cmd bh req; b ← buffer bh; add_request d (major_of b.b_dev) req) k
unfolding make_request
make_request_slot d n cmd bh req k e =
    ap
      (λ (o : Option Ptr).
        (elim o as (λ _. M Void) [
          | none ↦ d.interrupt >> make_request d n cmd false bh
          | some req ↦ (do
            fill_request cmd bh req
            b ← buffer bh
            add_request d (major_of b.b_dev) req)
        ])
          k)
      e

module _ (d : Device) (n : ℕ) (k : Kernel) (bh req : Ptr) (f : Fetchable k bh req) where
  ll_rw_block-start : ll_rw_block d (suc n) cmd_read bh k ≡ start_rw d (suc n) cmd_read false bh k
  unfolding ll_rw_block
  ll_rw_block-start =
      let known : (leb nr_blk_dev (major_of (k.buffers bh).b_dev)
            || not (k.blk_dev (major_of (k.buffers bh).b_dev)).request_fn)
          ≡ false =
        rw (f.major) (rw f.driver refl) in
      rw known refl

  start_rw-make_request :
      start_rw d (suc n) cmd_read false bh k
      ≡ make_request d (suc n) cmd_read false bh (locked k bh)
  unfolding start_rw lock_buff
  start_rw-make_request =
      let needed : (not (((locked k bh).buffers bh).b_uptodate == 0)) ≡ false =
        ground (arith, f.stale) in
      rw needed refl

  make_request-add_request :
      make_request d (suc n) cmd_read false bh (locked k bh)
      ≡ add_request d hd_major req (filled k bh req)
  make_request-add_request =
      let major : major_of ((locked k bh).buffers bh).b_dev ≡ hd_major = ground (arith, f.major) in
      make_request_slot d n cmd_read bh req (locked k bh) f.slot
      ∙ unfold fill_request in ap (λ m. add_request d m req (filled k bh req)) major

  add_request-launched :
      add_request d hd_major req (filled k bh req) ≡ d.request_fn (launched k bh req)
  unfolding add_request launched
  add_request-launched =
      let free : ((k.blk_dev hd_major).current_request == null) ≡ true = ground (arith, f.idle) in
      rw (prepare_request_lem (filled k bh req) req, free) refl

  pub ll_rw_block-launched : ll_rw_block d (suc n) cmd_read bh k ≡ d.request_fn (launched k bh req)
  ll_rw_block-launched =
      ll_rw_block-start ∙ start_rw-make_request ∙ make_request-add_request ∙ add_request-launched

pub launched-Awaits :
    (k : Kernel) (bh req : Ptr)
    → Fetchable k bh req
    → Awaits (launched k bh req) (fetch_job k bh req)
unfolding launched
launched-Awaits k bh req f =
    let there : (bh == null) ≡ false = ground (arith, f.real) in
    let low = free_request-low nr_request k.requests req f.slot in
    let real : req ≢ null = λ e. omega arith in
    record {
      readable = record {
        some_request = real;
        device = ground arith;
        major = f.major;
        command = ground arith;
        locked = λ e. ground arith;
        partition = f.partition;
        drives = f.drives;
        small = ground (arith, f.small);
        inside = ground (arith, f.inside, f.small);
        at = ground (arith, f.small);
        short = f.short;
        sectors = f.sectors;
        sectors_byte = f.sectors_byte;
        heads = f.heads;
        heads_bits = f.heads_bits;
        cylinders = f.cylinders;
      };
      into = ground arith;
      real = f.real;
      whole = ground arith;
      start = ground arith;
    }
