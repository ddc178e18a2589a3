-- ===== src/Buffer/Keep.antt =====
-- Which functions leave the lists of the cache alone, whatever the driver does.
pub mod Blocks
pub mod Cached
use Prim.Native.String.{String}
use eg_gs.Base.{
  ℕ, zero, suc, ◌+◌, ◌-◌, ◌≡◌, ◌≢◌, refl, ap, Bool, true, false, not, ◌&&◌, ◌||◌, Option, none,
  some, Ram, update, arith, ◌==◌, if◌then◌else◌,
}
use eg_gs.Kernel.{Kernel, Ptr, null, BufferHead, Request}
use eg_gs.Kernel.Result.{
  M, Void, Result, panic, hang, wild, Ensures, Ensures-bind, ok, ◌>>=◌, ◌>>◌, pure, skip, fail,
  spin, read, modify, buffer, set_buffer, with_buffer, set_request, with_request, set_interrupts,
}
use eg_gs.Kernel.Device.{Device, Quiet}
use eg_gs.Buffer.Queues.Same.{
  SameLists, SameLists-refl, SameLists-trans, Quiet-SameLists, SameLists-with_buffer,
}

unfoldable pub Keeps : {A : Type 0} → M A → Type 0
Keeps m = (k : Kernel) → Ensures (λ _ k'. SameLists null k k') (m k)

-- A change of a buffer head that leaves its block and its links alone.
abbrev pub Own : (BufferHead → BufferHead) → Type 0
Own f =
    (b : BufferHead)
    → ((f b).b_dev ≡ b.b_dev)
      × ((f b).b_blocknr ≡ b.b_blocknr)
      × ((f b).b_next ≡ b.b_next)
      × ((f b).b_prev ≡ b.b_prev)
      × ((f b).b_next_free ≡ b.b_next_free)
      × ((f b).b_prev_free ≡ b.b_prev_free)

Keeps-after :
    {B : Type 0} {k k' : Kernel} (r : Result B)
    → SameLists null k k'
    → Ensures (λ _ k''. SameLists null k' k'') r
    → Ensures (λ _ k''. SameLists null k k'') r
Keeps-after (ok b k'') s e = SameLists-trans s e
Keeps-after (panic t) s e = tt
Keeps-after hang s e = tt
Keeps-after wild s e = tt

pub Keeps-bind :
    {A B : Type 0} (m : M A) (f : A → M B) → Keeps m → ((a : A) → Keeps (f a)) → Keeps (m >>= f)
unfolding Keeps
Keeps-bind m f p q k =
    Ensures-bind (λ _ k'. SameLists null k k') (λ _ k'. SameLists null k k') (m k) f (p k)
      (λ a k' s. Keeps-after (f a k') s (q a k'))

pub Keeps-then : {B : Type 0} (m : M Void) (n : M B) → Keeps m → Keeps n → Keeps (m >> n)
Keeps-then m n p q = Keeps-bind m (λ _. n) p (λ _. q)

pub Keeps-read :
    {A B : Type 0} (g : Kernel → A) (f : A → M B) → ((a : A) → Keeps (f a)) → Keeps (read g >>= f)
unfolding Keeps
Keeps-read g f q = Keeps-bind (read g) f (λ k. SameLists-refl null k) q

pub Keeps-pure : {A : Type 0} (a : A) → Keeps (pure a)
unfolding Keeps
Keeps-pure a k = SameLists-refl null k

pub Keeps-fail : (A : Type 0) → (s : String) → Keeps (fail {A = A} s)
unfolding Keeps
Keeps-fail A s k = tt

pub Keeps-spin : (A : Type 0) → Keeps (spin {A = A})
unfolding Keeps
Keeps-spin A k = tt

pub Keeps-if : {A : Type 0} (c : Bool) (m n : M A) → Keeps m → Keeps n → Keeps (if c then m else n)
Keeps-if true m n p q = p
Keeps-if false m n p q = q

pub Keeps-set_buffer : (bh : Ptr) (f : BufferHead → BufferHead) → Own f → Keeps (set_buffer bh f)
unfolding Keeps
Keeps-set_buffer bh f own k =
    SameLists-with_buffer k null bh f (λ b. ((own b).4, (own b).5))
      (λ _ b. ((own b).0, (own b).1, (own b).2, (own b).3))

pub Keeps-set_lock : (bh : Ptr) (v : ℕ) → Keeps (set_buffer bh (λ b. record b { b_lock = v }))
Keeps-set_lock bh v =
    Keeps-set_buffer bh (λ b. record b { b_lock = v }) (λ b. (refl, refl, refl, refl, refl, refl))

pub Keeps-set_dirt : (bh : Ptr) (v : ℕ) → Keeps (set_buffer bh (λ b. record b { b_dirt = v }))
Keeps-set_dirt bh v =
    Keeps-set_buffer bh (λ b. record b { b_dirt = v }) (λ b. (refl, refl, refl, refl, refl, refl))

pub Keeps-set_count :
    (bh : Ptr) (g : BufferHead → ℕ) → Keeps (set_buffer bh (λ b. record b { b_count = g b }))
Keeps-set_count bh g =
    Keeps-set_buffer bh (λ b. record b { b_count = g b })
      (λ b. (refl, refl, refl, refl, refl, refl))

pub Keeps-invalidate :
    (bh : Ptr) → Keeps (set_buffer bh (λ b. record b { b_uptodate = 0; b_dirt = 0 }))
Keeps-invalidate bh =
    Keeps-set_buffer bh (λ b. record b { b_uptodate = 0; b_dirt = 0 })
      (λ b. (refl, refl, refl, refl, refl, refl))

-- What the buffer cache does not own.
pub Keeps-elsewhere :
    (f : Kernel → Kernel)
    → ((k : Kernel)
        → ((f k).buffers ≡ k.buffers)
          × ((f k).hash_table ≡ k.hash_table)
          × ((f k).free_list ≡ k.free_list)
          × ((f k).nr_buffers ≡ k.nr_buffers))
    → Keeps (modify f)
unfolding Keeps
Keeps-elsewhere f h k =
    let (heads, chains, first, number) = h k in
    record {
      dev = λ p n. ap (λ (bs : Ram BufferHead). (bs p).b_dev) heads;
      block = λ p n. ap (λ (bs : Ram BufferHead). (bs p).b_blocknr) heads;
      next = λ p n. ap (λ (bs : Ram BufferHead). (bs p).b_next) heads;
      prev = λ p n. ap (λ (bs : Ram BufferHead). (bs p).b_prev) heads;
      next_free = λ p. ap (λ (bs : Ram BufferHead). (bs p).b_next_free) heads;
      prev_free = λ p. ap (λ (bs : Ram BufferHead). (bs p).b_prev_free) heads;
      hash = λ i. ap (λ (t : Ram Ptr). t i) chains;
      free = first;
      number = number;
    }

pub Keeps-set_request : (req : Ptr) (f : Request → Request) → Keeps (set_request req f)
Keeps-set_request req f = Keeps-elsewhere _ (λ k. (refl, refl, refl, refl))

pub Keeps-set_interrupts : (b : Bool) → Keeps (set_interrupts b)
Keeps-set_interrupts b = Keeps-elsewhere _ (λ k. (refl, refl, refl, refl))

Quiet-Keeps :
    (k : Kernel) (r : Result Void)
    → Ensures (λ _ k'. Quiet k k') r
    → Ensures (λ _ k'. SameLists null k k') r
Quiet-Keeps k (ok a k') q = Quiet-SameLists q
Quiet-Keeps k (panic s) q = tt
Quiet-Keeps k hang q = tt
Quiet-Keeps k wild q = tt

pub ruleset keeping = (
  Keeps-then, Keeps-read, Keeps-bind, Keeps-pure, Keeps-fail, Keeps-spin, Keeps-if, Keeps-set_lock,
  Keeps-set_dirt, Keeps-set_count, Keeps-invalidate, Keeps-set_request, Keeps-set_interrupts,
)

pub Keeps-interrupt : (d : Device) → Keeps d.interrupt
unfolding Keeps
Keeps-interrupt d k = Quiet-Keeps k (d.interrupt k) (d.interrupt-Quiet k)

pub Keeps-request_fn : (d : Device) → Keeps d.request_fn
unfolding Keeps
Keeps-request_fn d k = Quiet-Keeps k (d.request_fn k) (d.request_fn-Quiet k)
