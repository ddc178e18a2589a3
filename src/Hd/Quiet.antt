-- ===== src/Hd/Quiet.antt =====
-- What the driver leaves alone: which block each buffer holds, its users and its lists, the super
-- blocks and the inodes. So the driver of hd.c is one that the buffer cache can rely on.
pub mod Handlers
use Prim.Native.String.{String}
use eg_gs.Base.{
  ℕ, zero, suc, ◌+◌, ◌%◌, ◌^◌, ◌≡◌, refl, Bool, true, false, Option, none, some, List, Ram, update,
  ◌==◌, ltb, leb, ◌&&◌, if◌then◌else◌, arith, Bool-cases, inl, inr, subst,
}
use eg_gs.Kernel.{
  Kernel, Ptr, BufferHead, Request, BlkDev, Handler, recal_intr, read_intr, write_intr, Io,
}
use eg_gs.Kernel.Result.{
  M, Void, Result, ok, panic, hang, wild, stray, Ensures, Ensures-bind, ◌>>=◌, ◌>>◌, pure, fail,
  spin, read, modify, set_buffer, set_request, skip,
}
use eg_gs.Kernel.Device.{Device, Quiet, SameHead, SameHead-refl, Quiet-refl, Quiet-trans}
use eg_gs.Blk.Lock.{unlock_buff}
use eg_gs.Hd.{
  in_progress, end_request, bad_rw_intr, win_result, ready_rounds, controller_ready, send_command,
  hd_out, busy_rounds, drive_busy, reset_controller, wait_drq, issue, do_hd_request,
}
use eg_gs.Hd.Interrupts.{port_read, on_read, on_write, on_recal, run_handler}

unfoldable pub Quietly : {A : Type 0} → M A → Type 0
Quietly m = (k : Kernel) → Ensures (λ _ k'. Quiet k k') (m k)

Quiet-after :
    {B : Type 0} {k k' : Kernel} (r : Result B)
    → Quiet k k'
    → Ensures (λ _ k''. Quiet k' k'') r
    → Ensures (λ _ k''. Quiet k k'') r
Quiet-after (ok b k'') s e = Quiet-trans s e
Quiet-after (panic t) s e = tt
Quiet-after hang s e = tt
Quiet-after wild s e = tt

pub Quietly-bind :
    {A B : Type 0} (m : M A) (f : A → M B)
    → Quietly m
    → ((a : A) → Quietly (f a))
    → Quietly (m >>= f)
unfolding Quietly
Quietly-bind m f p q k =
    Ensures-bind (λ _ k'. Quiet k k') (λ _ k'. Quiet k k') (m k) f (p k)
      (λ a k' s. Quiet-after (f a k') s (q a k'))

pub Quietly-then : {B : Type 0} (m : M Void) (n : M B) → Quietly m → Quietly n → Quietly (m >> n)
Quietly-then m n p q = Quietly-bind m (λ _. n) p (λ _. q)

pub Quietly-read :
    {A B : Type 0} (g : Kernel → A) (f : A → M B)
    → ((a : A) → Quietly (f a))
    → Quietly (read g >>= f)
unfolding Quietly
Quietly-read g f q = Quietly-bind (read g) f (λ k. Quiet-refl k) q

pub Quietly-pure : {A : Type 0} (a : A) → Quietly (pure a)
unfolding Quietly
Quietly-pure a k = Quiet-refl k

pub Quietly-fail : (A : Type 0) (s : String) → Quietly (fail {A = A} s)
unfolding Quietly
Quietly-fail A s k = tt

pub Quietly-spin : (A : Type 0) → Quietly (spin {A = A})
unfolding Quietly
Quietly-spin A k = tt

pub Quietly-stray : (A : Type 0) → Quietly (stray {A = A})
unfolding Quietly
Quietly-stray A k = tt

pub Quietly-if :
    {A : Type 0} (c : Bool) (m n : M A) → Quietly m → Quietly n → Quietly (if c then m else n)
Quietly-if true m n p q = p
Quietly-if false m n p q = q

-- A change of what only the block layer and the driver use.
pub Quietly-modify :
    (f : Kernel → Kernel)
    → ((k : Kernel)
        → ((p : Ptr) → SameHead (k.buffers p) ((f k).buffers p))
          × ((f k).hash_table ≡ k.hash_table)
          × ((f k).free_list ≡ k.free_list)
          × ((f k).nr_buffers ≡ k.nr_buffers)
          × ((f k).super_block_list ≡ k.super_block_list)
          × ((f k).inode_list ≡ k.inode_list)
          × ((f k).last_inode ≡ k.last_inode))
    → Quietly (modify f)
unfolding Quietly
Quietly-modify f h k =
    let (heads, hash, free, number, supers, inodes, last) = h k in
    record {
      heads = heads;
      same_hash = hash;
      same_free = free;
      same_number = number;
      same_super = supers;
      same_inodes = inodes;
      same_last = last;
    }

pub Quietly-driver :
    (requests : Kernel → Ram Request) (blk_dev : Kernel → Ram BlkDev)
    (recalibrate reset : Kernel → ℕ) (irq14 : Kernel → Option Handler) (io : Kernel → List Io)
    → Quietly (
        modify (λ k. record k {
          requests = requests k;
          blk_dev = blk_dev k;
          recalibrate = recalibrate k;
          reset = reset k;
          irq14 = irq14 k;
          io = io k;
        }))
Quietly-driver requests blk_dev recalibrate reset irq14 io =
    Quietly-modify
      (λ k. record k {
        requests = requests k;
        blk_dev = blk_dev k;
        recalibrate = recalibrate k;
        reset = reset k;
        irq14 = irq14 k;
        io = io k;
      })
      (λ k. (λ p. SameHead-refl (k.buffers p), refl, refl, refl, refl, refl, refl))

SameHead-update :
    (bs : Ram BufferHead) (q : Ptr) (h : BufferHead)
    → SameHead (bs q) h
    → (p : Ptr) → SameHead (bs p) (update bs q h p)
SameHead-update bs q h s p = elim (Bool-cases (q == p)) [
  | inl e ↦ let same : q ≡ p = ground arith in rw e (subst (λ x. SameHead (bs x) h) (same) s)
  | inr e ↦ rw e (SameHead-refl (bs p))
]

pub Quietly-transfer :
    (bh : Ptr) (content : BufferHead → Ram ℕ) (uptodate lock : BufferHead → ℕ)
    → Quietly (
        set_buffer bh
          (λ b. record b { b_data = content b; b_uptodate = uptodate b; b_lock = lock b }))
Quietly-transfer bh content uptodate lock =
    let f : BufferHead → BufferHead =
      λ b. record b { b_data = content b; b_uptodate = uptodate b; b_lock = lock b } in
    Quietly-modify (λ k. record k { buffers = update k.buffers bh (f (k.buffers bh)) })
      (λ k. (
        SameHead-update k.buffers bh (f (k.buffers bh)) (record {
          same_blocknr = refl;
          same_dev = refl;
          same_dirt = refl;
          same_count = refl;
          same_prev = refl;
          same_next = refl;
          same_prev_free = refl;
          same_next_free = refl;
        }),
        refl,
        refl,
        refl,
        refl,
        refl,
        refl,
      ))

pub ruleset quiet = (
  Quietly-then, Quietly-read, Quietly-bind, Quietly-pure, Quietly-fail, Quietly-spin, Quietly-stray,
  Quietly-if, Quietly-driver, Quietly-transfer,
)

unlock_buff-Quietly : (bh : Ptr) → Quietly (unlock_buff bh)
unfolding unlock_buff
unlock_buff-Quietly bh = search quiet

pub in_progress-Quietly : Quietly in_progress
unfolding in_progress
in_progress-Quietly = search quiet

pub end_request-Quietly : (u : ℕ) → Quietly (end_request u)
unfolding end_request
end_request-Quietly u = search (quiet, unlock_buff-Quietly, in_progress-Quietly) depth 9

pub bad_rw_intr-Quietly : Quietly bad_rw_intr
unfolding bad_rw_intr
bad_rw_intr-Quietly = search (quiet, end_request-Quietly, in_progress-Quietly) depth 12
