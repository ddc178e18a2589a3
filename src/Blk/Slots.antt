-- ===== src/Blk/Slots.antt =====
-- Which request `ll_rw_block` takes from the table.
use eg_gs.Base.{
  ℕ, zero, suc, ◌≤◌, ◌<◌, ◌≡◌, ◌≢◌, subst, sym, ◌∙◌, inl, inr, Bool-cases, Option, none, some,
  Option-cases, Ram, arith, ◌==◌, if◌then◌else◌,
}
use eg_gs.Kernel.{Ptr, Request}
use eg_gs.Blk.{free_request, slots, cmd_read}

-- The last free slot up to `n`, or none.
pub data Slot (rs : Ram Request) (n : ℕ) : Option Ptr → Type 0 where
  free :
      (p : Ptr)
      → 1 ≤ p
      → p ≤ n
      → (rs p).dev ≡ none
      → ((q : Ptr) → p < q → q ≤ n → (rs q).dev ≢ none)
      → Slot rs n (some p)
  full : ((q : Ptr) → 1 ≤ q → q ≤ n → (rs q).dev ≢ none) → Slot rs n none

-- One slot more that is in use.
in_use_above :
    (n : ℕ) (rs : Ram Request) (q : Ptr)
    → (rs (suc n)).dev ≢ none
    → (q ≤ n → (rs q).dev ≢ none)
    → q ≤ suc n
    → (rs q).dev ≢ none
in_use_above n rs q h inside b = elim (Bool-cases (q == suc n)) [
  | inl e ↦ let at : suc n ≡ q = ground arith in subst (λ x. (rs x).dev ≢ none) at h
  | inr e ↦ inside (ground arith)
]

Slot-more :
    (n : ℕ) (rs : Ram Request) (o : Option Ptr)
    → (rs (suc n)).dev ≢ none
    → Slot rs n o
    → Slot rs (suc n) o
Slot-more n rs o h (free p low high dev above) =
    free p low (omega arith) dev (λ q a b. in_use_above n rs q h (λ c. above q a c) b)
Slot-more n rs o h (full all) = full (λ q a b. in_use_above n rs q h (λ c. all q a c) b)

free_request-Slot : (n : ℕ) (rs : Ram Request) → Slot rs n (free_request n rs)
unfolding free_request
free_request-Slot zero rs = full (λ q a b. absurd (omega arith))
free_request-Slot (suc n) rs = elim (Option-cases (rs (suc n)).dev) [
  | inl e ↦
      rw (free_request, e)
        (free (suc n) (omega arith) (omega arith) e (λ q a b. absurd (omega arith)))
  | inr (dev, e) ↦
      rw (free_request, e)
        (Slot-more n rs (free_request n rs) (λ h. used dev (sym e ∙ h)) (free_request-Slot n rs))
]
  where
    used : (dev : ℕ) → some dev ≡ none → ⊥
    used dev h = ground arith

Slot-low : (rs : Ram Request) (n : ℕ) {p : Ptr} → Slot rs n (some p) → 1 ≤ p
Slot-low rs n (free p low high dev above) = low

pub free_request-low : (n : ℕ) (rs : Ram Request) (p : Ptr) → free_request n rs ≡ some p → 1 ≤ p
free_request-low n rs p e = Slot-low rs n (subst (Slot rs n) e (free_request-Slot n rs))

-- A read looks for the last free slot of all 32, any other command for the last of the first 21: so
-- the requests that are not reads leave eleven slots to reads.
pub free_request-slots :
    (rs : Ram Request) (cmd : ℕ)
    → Slot rs (if cmd == cmd_read then 32 else 21) (free_request (slots cmd) rs)
free_request-slots rs cmd = elim (Bool-cases (cmd == cmd_read)) [
  | inl e ↦ rw e (free_request-Slot 32 rs)
  | inr e ↦ rw e (free_request-Slot 21 rs)
]
