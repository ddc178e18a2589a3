-- ===== src/Blk/Elevator/Order.antt =====
-- The elevator's order: a queue that is one sweep, or a sweep and the beginning of the next one,
-- stays so, and no request is lost or made up.
use Prim.Native.Nat.{max}
use mathlib.Core.List.{Perm}
use mathlib.Core.List.Perm
use eg_gs.Base.{
  ℕ, ◌+◌, ◌≤◌, ◌≡◌, ◌≢◌, ◌⊎◌, refl, true, false, inl, inr, Bool-cases, Option, none, some, List, [],
  ◌∷◌, ◌++◌, Ram, if◌then◌else◌, arith,
}
use eg_gs.Kernel.{Ptr, Request}
use eg_gs.Blk.{in_order, dev_ltb, dev_eqb}
use eg_gs.Blk.Elevator.{fits, insert}

-- How often a request is followed by one that is not after it in the order.
unfoldable pub descents : Ram Request → Ptr → List Ptr → ℕ
descents rs a [] = 0
descents rs a (b ∷ qs) = (if in_order (rs a) (rs b) then 0 else 1) + descents rs b qs

-- Two requests for different places or of different kinds.
abbrev pub Differ : Request → Request → Type 0
Differ a b = (a.cmd ≢ b.cmd) ⊎ ((a.dev ≢ b.dev) ⊎ (a.sector ≢ b.sector))

dev_order : (a b : Option ℕ) → a ≢ b → dev_ltb a b ≡ false → dev_ltb b a ≡ true
dev_order none none ne h = absurd (ne refl)
dev_order none (some b) ne h = ground arith
dev_order (some a) none ne h = refl
dev_order (some a) (some b) ne h = ground arith

dev_equal : (a b : Option ℕ) → dev_ltb a b ≡ false → dev_eqb a b ≡ false → dev_ltb b a ≡ true
dev_equal none none ne h = ground arith
dev_equal none (some b) ne h = ground arith
dev_equal (some a) none ne h = refl
dev_equal (some a) (some b) ne h = ground arith

dev_eqb-eq : (a b : Option ℕ) → dev_eqb a b ≡ true → a ≡ b
dev_eqb-eq none none h = refl
dev_eqb-eq none (some b) h = ground arith
dev_eqb-eq (some a) none h = ground arith
dev_eqb-eq (some a) (some b) h = ground arith

dev_eqb-swap : (a b : Option ℕ) → dev_eqb a b ≡ dev_eqb b a
dev_eqb-swap none none = refl
dev_eqb-swap none (some b) = refl
dev_eqb-swap (some a) none = refl
dev_eqb-swap (some a) (some b) = ground arith

dev_ltb_trans : (a b c : Option ℕ) → dev_ltb a b ≡ true → dev_ltb b c ≡ true → dev_ltb a c ≡ true
dev_ltb_trans none none c p q = ground arith
dev_ltb_trans none (some b) none p q = ground arith
dev_ltb_trans none (some b) (some c) p q = refl
dev_ltb_trans (some a) none c p q = ground arith
dev_ltb_trans (some a) (some b) none p q = ground arith
dev_ltb_trans (some a) (some b) (some c) p q = ground arith

-- Requests that differ are ordered one way or the other.
in_order-total : (a b : Request) → Differ a b → in_order a b ≡ false → in_order b a ≡ true
unfolding in_order
in_order-total a b d h =
    ground (arith, dev_equal a.dev b.dev, dev_eqb-eq a.dev b.dev, dev_eqb-swap a.dev b.dev)

in_order_trans : (a b c : Request) → in_order a b ≡ true → in_order b c ≡ true → in_order a c ≡ true
unfolding in_order
in_order_trans a b c p q =
    ground (arith, dev_ltb_trans a.dev b.dev c.dev, dev_eqb-eq a.dev b.dev, dev_eqb-eq b.dev c.dev)

dev_ltb_irrefl : (a : Option ℕ) → dev_ltb a a ≡ false
dev_ltb_irrefl none = refl
dev_ltb_irrefl (some a) = ground arith

in_order_irrefl : (a : Request) → in_order a a ≡ false
unfolding in_order
in_order_irrefl a = ground (arith, dev_ltb_irrefl a.dev)

in_order-asymm : (a b : Request) → in_order a b ≡ true → in_order b a ≡ false
in_order-asymm a b h = elim (Bool-cases (in_order b a)) [
  | inl e ↦ absurd (cc (in_order_trans a b a h e, in_order_irrefl a))
  | inr e ↦ e
]

abbrev pub AllDiffer : Ram Request → Ptr → List Ptr → Type 0
AllDiffer rs r [] = Unit {0}
AllDiffer rs r (x ∷ xs) = Differ (rs r) (rs x) × AllDiffer rs r xs

insert-descents :
    (rs : Ram Request) (r a : Ptr) (qs : List Ptr)
    → AllDiffer rs r qs
    → (in_order (rs a) (rs r) ≡ true → descents rs a (insert rs r a qs) ≤ descents rs a qs)
      × (descents rs a (insert rs r a qs) ≤ max 1 (descents rs a qs))
unfolding descents insert
insert-descents rs r a [] new = ground arith
insert-descents rs r a (b ∷ qs) new =
    ground (arith, insert-descents rs r b qs new.1, in_order-total (rs r) (rs b) new.0)

-- A queue that is at most two sweeps stays so.
pub insert_sweep :
    (rs : Ram Request) (r a : Ptr) (qs : List Ptr)
    → AllDiffer rs r qs
    → descents rs a qs ≤ 1
    → descents rs a (insert rs r a qs) ≤ 1
insert_sweep rs r a qs new h = omega (arith, (insert-descents rs r a qs new).1)

-- What comes before the first request of a sweep goes behind the whole sweep.
pub insert_last :
    (rs : Ram Request) (r a : Ptr) (qs : List Ptr)
    → descents rs a qs ≡ 0
    → in_order (rs r) (rs a) ≡ true
    → insert rs r a qs ≡ qs ++ (r ∷ [])
unfolding descents insert
insert_last rs r a [] h before = refl
insert_last rs r a (b ∷ qs) h before = ground (
  arith,
  in_order-asymm (rs r) (rs a) before,
  in_order_trans (rs r) (rs a) (rs b) before,
  insert_last rs r b qs,
)

pub descents-congr :
    (rs rs' : Ram Request) (a : Ptr) (qs : List Ptr)
    → ((x y : Ptr) → in_order (rs' x) (rs' y) ≡ in_order (rs x) (rs y))
    → descents rs' a qs ≡ descents rs a qs
unfolding descents
descents-congr rs rs' a [] same = refl
descents-congr rs rs' a (b ∷ qs) same = rw (same a b, descents-congr rs rs' b qs same)

pub perm-insert : (rs : Ram Request) (r a : Ptr) (qs : List Ptr) → Perm (insert rs r a qs) (r ∷ qs)
unfolding insert
perm-insert rs r a [] = Perm.refl (r ∷ [])
perm-insert rs r a (b ∷ qs) = elim (Bool-cases (fits rs r a b)) [
  | inl e ↦ rw e (Perm.refl (r ∷ b ∷ qs))
  | inr e ↦ rw e (Perm.trans (Perm.cons b (perm-insert rs r b qs)) (Perm.swap r b qs))
]
