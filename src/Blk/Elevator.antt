-- ===== src/Blk/Elevator.antt =====
-- The queue of a device as a list, and where `add_request` puts a request into it.
pub mod Order
pub mod Insert
pub mod Sweep
use eg_gs.Base.{ℕ, ◌≡◌, ◌≢◌, Bool, false, not, ◌&&◌, ◌||◌, List, [], ◌∷◌, Ram, has, if◌then◌else◌}
use eg_gs.Kernel.{Ptr, null, Request}
use eg_gs.Blk.{in_order}

-- From `p` the `next` pointers lead through the distinct requests `xs` to the end.
abbrev pub IsQueue : Ram Request → Ptr → List Ptr → Type 0
IsQueue rs p [] = p ≡ null
IsQueue rs p (x ∷ xs) = (p ≡ x) × (x ≢ null) × (has x xs ≡ false) × IsQueue rs (rs x).next xs

-- The test of the loop: the request goes between `a` and `b`.
abbrev pub fits : Ram Request → (r a b : Ptr) → Bool
fits rs r a b = (in_order (rs a) (rs r) || not (in_order (rs a) (rs b))) && in_order (rs r) (rs b)

-- The requests behind `a`, with `r` in its place among them.
unfoldable pub insert : Ram Request → (r a : Ptr) → List Ptr → List Ptr
insert rs r a [] = r ∷ []
insert rs r a (b ∷ qs) =
    let rest = insert rs r b qs in if fits rs r a b then r ∷ b ∷ qs else b ∷ rest
