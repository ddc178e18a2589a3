-- ===== src/Blk/Elevator/Insert.antt =====
-- `add_request` on a busy device inserts into the queue by the elevator's rule.
use eg_gs.Base.{
  ℕ, zero, suc, ◌<◌, ◌≡◌, refl, subst, ◌≢◌, true, false, ◌||◌, inl, inr, Bool-cases, Option, some,
  List, [], ◌∷◌, Ram, update, has, length, ◌==◌, if◌then◌else◌, arith,
}
use eg_gs.Kernel.{Kernel, Ptr, null, Request}
use eg_gs.Kernel.Device.{Device}
use eg_gs.Kernel.Result.{ok, Returns, returns}
use eg_gs.Blk.{in_order, place_after, prepare_request, queue_behind, add_request, nr_request}
use eg_gs.Blk.Elevator.{IsQueue, fits, insert}

has-insert :
    (x : ℕ) (rs : Ram Request) (r a : Ptr) (qs : List Ptr)
    → has x (insert rs r a qs) ≡ (x == r || has x qs)
unfolding insert
has-insert x rs r a [] = ground arith
has-insert x rs r a (b ∷ qs) = ground (arith, has-insert x rs r b qs)

-- A queue survives any change that spares the `next` pointers of its requests.
IsQueue-frame :
    (rs rs' : Ram Request) (p : Ptr) (xs : List Ptr)
    → ((x : Ptr) → has x xs ≡ true → (rs' x).next ≡ (rs x).next)
    → IsQueue rs p xs
    → IsQueue rs' p xs
IsQueue-frame rs rs' p [] same q = q
IsQueue-frame rs rs' p (x ∷ xs) same (e, ne, out, q) = (
  e,
  ne,
  out,
  rw (same x (ground arith)) (IsQueue-frame rs rs' (rs x).next xs (λ y h. same y (ground arith)) q),
)

-- The requests after `link_after t r`.
abbrev linked : Ram Request → (t r : Ptr) → Ram Request
linked rs t r =
    let rs' = update rs r (record (rs r) { next = (rs t).next }) in
    update rs' t (record (rs' t) { next = r })

-- What the loop finds, started at `a` with `qs` behind it.
record Found (rs : Ram Request) (r a : Ptr) (qs : List Ptr) (t : Ptr) (out : Option Ptr)
    : Type 0 where
  found : out ≡ some t
  member : has t (a ∷ qs) ≡ true
  queue : IsQueue (linked rs t r) a (a ∷ insert rs r a qs)

place_after_step :
    (n : ℕ) (rs : Ram Request) (r a b : Ptr)
    → (rs a).next ≡ b
    → b ≢ null
    → place_after (suc n) rs a r ≡ (if fits rs r a b then some a else place_after n rs b r)
unfolding place_after
place_after_step n rs r a b e ne =
    let some_next : (b == null) ≡ false = ground arith in rw (e, some_next)

module _ (rs : Ram Request) (r : Ptr) (ne : r ≢ null) where
  place_after-Found :
      (fuel : ℕ) (a : Ptr) (qs : List Ptr)
      → IsQueue rs a (a ∷ qs)
      → has r (a ∷ qs) ≡ false
      → length qs < fuel
      → (t : Ptr) × Found rs r a qs t (place_after fuel rs a r)
  unfolding place_after insert
  place_after-Found zero a qs q out fuel = absurd (omega arith)
  place_after-Found (suc n) a [] q out fuel = (
    a,
    record {
      found = ground arith;
      member = ground arith;
      queue = (refl, q.1, ground arith, ground arith);
    },
  )
  place_after-Found (suc n) a (b ∷ qs) q out fuel = elim (Bool-cases (fits rs r a b)) [
    | inl e ↦
        let same_b : (rs b).next ≡ (linked rs a r b).next = ground arith in
        (
          a,
          record {
            found = rw (place_after_step n rs r a b q.3.0 q.3.1, e);
            member = ground arith;
            queue = rw e (
              refl,
              q.1,
              ground arith,
              (
                ground arith,
                ne,
                ground arith,
                (
                  ground arith,
                  q.3.1,
                  q.3.2,
                  subst (λ p. IsQueue (linked rs a r) p qs) same_b
                      (IsQueue-frame rs (linked rs a r) (rs b).next qs (λ x h. ground arith) q.3.3),
                ),
              ),
            );
          },
        )
    | inr e ↦
        let (t, f) =
          place_after-Found n b qs (refl, q.3.1, q.3.2, q.3.3) (ground arith) (omega arith) in
        let next_a : b ≡ (linked rs t r a).next = ground (arith, f.member) in
        (
          t,
          record {
            found = rw (place_after_step n rs r a b q.3.0 q.3.1, e) f.found;
            member = ground (arith, f.member);
            queue = rw e (
              refl,
              q.1,
              ground (arith, has-insert a rs r b qs),
              subst (λ p. IsQueue (linked rs t r) p (b ∷ insert rs r b qs)) next_a f.queue,
            );
          },
        )
  ]

-- The rule looks at the command, device and sector of the requests only.
insert-congr :
    (rs rs' : Ram Request) (r a : Ptr) (qs : List Ptr)
    → ((x y : Ptr) → in_order (rs' x) (rs' y) ≡ in_order (rs x) (rs y))
    → insert rs' r a qs ≡ insert rs r a qs
unfolding insert
insert-congr rs rs' r a [] same = refl
insert-congr rs rs' r a (b ∷ qs) same =
    rw (same a r, same a b, same r b, insert-congr rs rs' r b qs same)

-- `add_request` up to the test whether the device is busy.
abbrev pub prepared : Kernel → Ptr → Kernel
prepared k req =
    let b = (k.requests req).bh in
    record k {
      requests = update k.requests req (record (k.requests req) { next = null });
      interrupts = false;
      buffers =
          if b == null then k.buffers else update k.buffers b (record (k.buffers b) { b_dirt = 0 });
    }

pub prepare_request_lem : (k : Kernel) (req : Ptr) → prepare_request req k ≡ ok tt (prepared k req)
unfolding prepare_request
prepare_request_lem k req = ground arith

-- The fields that the rule looks at.
record SameKey (a b : Request) : Type 0 where
  same_cmd : b.cmd ≡ a.cmd
  same_dev : b.dev ≡ a.dev
  same_sector : b.sector ≡ a.sector

in_order-SameKey :
    {a a' b b' : Request} → SameKey a a' → SameKey b b' → in_order a' b' ≡ in_order a b
unfolding in_order
in_order-SameKey p q =
    rw (p.same_cmd, p.same_dev, p.same_sector, q.same_cmd, q.same_dev, q.same_sector)

linked-SameKey :
    (k : Kernel) (t req x : Ptr) → SameKey (k.requests x) (linked (prepared k req).requests t req x)
linked-SameKey k t req x = ground arith

queue_behind_lem :
    (k : Kernel) (tmp req t : Ptr)
    → place_after nr_request k.requests tmp req ≡ some t
    → queue_behind tmp req k ≡ ok tt (record k { requests = linked k.requests t req })
unfolding queue_behind
queue_behind_lem k tmp req t e = ground (arith, e)

pub record Queued (k : Kernel) (major : ℕ) (req a : Ptr) (qs : List Ptr) (k' : Kernel)
    : Type 0 where
  pub queue :
      IsQueue k'.requests (k'.blk_dev major).current_request (a ∷ insert k.requests req a qs)
  pub same_order :
      (x y : Ptr)
      → in_order (k'.requests x) (k'.requests y) ≡ in_order (k.requests x) (k.requests y)
  pub enabled : k'.interrupts ≡ true
  pub clean : (k.requests req).bh ≢ null → (k'.buffers (k.requests req).bh).b_dirt ≡ 0

-- On a busy device `add_request` returns with the request inserted by the elevator's rule into a
-- well-formed queue, the buffer marked clean and the interrupts on.
pub add_request-insert :
    (d : Device) (k : Kernel) (major : ℕ) (req a : Ptr) (qs : List Ptr)
    → IsQueue k.requests (k.blk_dev major).current_request (a ∷ qs)
    → has req (a ∷ qs) ≡ false
    → req ≢ null
    → length qs < nr_request
    → Returns (λ _ k'. Queued k major req a qs k') (add_request d major req k)
unfolding add_request
add_request-insert d k major req a qs q out ne fuel =
    let rs = (prepared k req).requests in
    let same : (x y : Ptr) → in_order (rs x) (rs y) ≡ in_order (k.requests x) (k.requests y) =
      λ x y. unfold in_order in ground arith in
    let q' : IsQueue rs (k.blk_dev major).current_request (a ∷ qs) =
      IsQueue-frame k.requests rs (k.blk_dev major).current_request (a ∷ qs) (λ x h. ground arith)
        q in
    let (t, f) = place_after-Found rs req ne nr_request a qs (refl, q'.1, q'.2, q'.3) out fuel in
    let placed : IsQueue (linked rs t req) a (a ∷ insert k.requests req a qs) =
      subst (λ l. IsQueue (linked rs t req) a (a ∷ l)) (insert-congr k.requests rs req a qs same)
        f.queue in
    let busy : ((k.blk_dev major).current_request == null) ≡ false = ground arith in
    let first : (k.blk_dev major).current_request ≡ a = q.0 in
    rw (prepare_request_lem k req, busy)
      (rw (first, queue_behind_lem (prepared k req) a req t f.found)
        (returns {k = record (prepared k req) { requests = linked rs t req; interrupts = true }}
          (record {
            queue = (first, placed.1, placed.2, placed.3);
            same_order =
                λ x y. in_order-SameKey (linked-SameKey k t req x) (linked-SameKey k t req y);
            enabled = refl;
            clean = λ h. ground arith;
          })))
