-- ===== src/Super/Bitmap/Laws.antt =====
-- Each bit operation changes the one bit that it names, and the scan finds the first clear bit.
use eg_gs.Base.{
  zero, suc, ◌+◌, ◌≤◌, ◌<◌, inl, inr, Bool-cases, ℕ, ◌-◌, ◌/◌, ◌%◌, ◌^◌, ◌≡◌, ◌⊎◌, Ram, ◌==◌,
  if◌then◌else◌, arith, add_digit_self, add_digit_ne, sub_digit_self,
}
use eg_gs.Super.Bitmap.{bit_at, set_bit, clear_bit, first_zero, find_first_zero, block_bits}

pub bit_at-cases : (m : Ram ℕ) (n : ℕ) → (bit_at m n ≡ 0) ⊎ (bit_at m n ≡ 1)
unfolding bit_at
bit_at-cases m n = omega arith

pub bit_at-set_bit :
    (m : Ram ℕ) (n i : ℕ) → bit_at (set_bit m n) i ≡ (if i == n then 1 else bit_at m i)
unfolding set_bit bit_at
bit_at-set_bit m n i =
    ground (arith, add_digit_self (n % 8) (m (n / 8)), add_digit_ne (n % 8) (i % 8) (m (n / 8)))

pub bit_at-clear_bit :
    (m : Ram ℕ) (n i : ℕ) → bit_at (clear_bit m n) i ≡ (if i == n then 0 else bit_at m i)
unfolding clear_bit bit_at
bit_at-clear_bit m n i = ground (
  arith,
  sub_digit_self (n % 8) (m (n / 8)),
  add_digit_ne (n % 8) (i % 8) (m (n / 8) - 2 ^ (n % 8)),
)

-- Where the scan stops, with `left` bits from `n` on.
pub record Stops (m : Ram ℕ) (n left z : ℕ) : Type 0 where
  pub after : n ≤ z
  pub before : z ≤ n + left
  pub clear : z < n + left → bit_at m z ≡ 0
  pub full : (i : ℕ) → n ≤ i → i < z → bit_at m i ≡ 1

pub first_zero-Stops : (left : ℕ) (m : Ram ℕ) (n : ℕ) → Stops m n left (first_zero left m n)
unfolding first_zero
first_zero-Stops zero m n = record {
  after = omega arith;
  before = omega arith;
  clear = omega arith;
  full = λ i p q. absurd (omega arith);
}
first_zero-Stops (suc left) m n =
    let s = first_zero-Stops left m (n + 1) in
    elim (Bool-cases (bit_at m n == 0)) [
      | inl e ↦ rw e (record {
        after = omega arith;
        before = omega arith;
        clear = λ _. ground arith;
        full = λ i p q. absurd (omega arith);
      })
      | inr e ↦ rw e (record {
        after = omega (arith, s.after);
        before = omega (arith, s.before);
        clear = λ h. s.clear (omega arith);
        full = λ i p q. ground (arith, s.full i, bit_at-cases m n);
      })
    ]

pub find_first_zero-Stops : (m : Ram ℕ) → Stops m 0 block_bits (find_first_zero m)
unfolding find_first_zero
find_first_zero-Stops m = first_zero-Stops block_bits m 0
