-- ===== src/Base/Bits.antt =====
-- Masks and shifts at variables: `bit_and` and `bit_or` against `%`, `/` and `+`.
use Prim.Native.Nat.{
  ℕ, zero, suc, ◌+◌, ◌-◌, ◌*◌, ◌/◌, ◌%◌, ◌^◌, ◌≤◌, ◌<◌, min, max, digits, bit_and, bit_or,
  bit_and-bitwise, bit_or-bitwise,
}
use mathlib.Core.Path.{◌≡◌, refl, sym, ◌∙◌, ap}
use mathlib.Core.Logic.{◌≢◌}
use native.Mathlib.Nat.{pow-suc, div-div-eq-div-mul, mul_comm, mod-eq-sub-mul-div, mul-div-le}
use native.Mathlib.Omega.{arith}

-- The recursion on digits does not depend on its fuel, once that covers the first number.
module _ (rest : ℕ → ℕ) (op : ℕ → ℕ → ℕ) where
  abbrev combine : ℕ → ℕ → ℕ → ℕ
  combine fuel a b = digits rest op fuel a b

  combine_fuel : (n m a b : ℕ) → a ≤ n → a ≤ m → combine n a b ≡ combine m a b
  combine_fuel zero zero a b p q = refl
  combine_fuel zero (suc m) zero b p q = refl
  combine_fuel zero (suc m) (suc a) b p q = absurd (omega arith)
  combine_fuel (suc n) zero zero b p q = refl
  combine_fuel (suc n) zero (suc a) b p q = absurd (omega arith)
  combine_fuel (suc n) (suc m) zero b p q = refl
  combine_fuel (suc n) (suc m) (suc a) b p q =
      omega (arith, combine_fuel n m (suc a / 2) (b / 2) (omega arith) (omega arith))

and_zero_left : (b : ℕ) → bit_and 0 b ≡ 0
and_zero_left b = bit_and-bitwise 0 b

or_zero_left : (b : ℕ) → bit_or 0 b ≡ b
or_zero_left b = bit_or-bitwise 0 b

-- The two operations, one binary digit at a time.
pub and_digit : (a b : ℕ) → bit_and a b ≡ bit_and (a / 2) (b / 2) * 2 + min (a % 2) (b % 2)
and_digit zero b = omega (arith, and_zero_left b, and_zero_left (b / 2))
and_digit (suc a) b = omega (
  arith,
  bit_and-bitwise (suc a) b,
  bit_and-bitwise (suc a / 2) (b / 2),
  combine_fuel (λ _. zero) min a (suc a / 2) (suc a / 2) (b / 2) (omega arith) (omega arith),
)

pub or_digit : (a b : ℕ) → bit_or a b ≡ bit_or (a / 2) (b / 2) * 2 + max (a % 2) (b % 2)
or_digit zero b = omega (arith, or_zero_left b, or_zero_left (b / 2))
or_digit (suc a) b = omega (
  arith,
  bit_or-bitwise (suc a) b,
  bit_or-bitwise (suc a / 2) (b / 2),
  combine_fuel (λ b. b) max a (suc a / 2) (suc a / 2) (b / 2) (omega arith) (omega arith),
)

pub and_zero_right : (a : ℕ) → bit_and a 0 ≡ 0
and_zero_right a = below (suc a) a (omega arith)
  where
    below : (n a : ℕ) → a < n → bit_and a 0 ≡ 0
    below zero a h = absurd (omega arith)
    below (suc n) zero h = and_zero_left 0
    below (suc n) (suc a) h = omega (arith, and_digit (suc a) 0, below n (suc a / 2) (omega arith))

pub or_zero_right : (a : ℕ) → bit_or a 0 ≡ a
or_zero_right a = below (suc a) a (omega arith)
  where
    below : (n a : ℕ) → a < n → bit_or a 0 ≡ a
    below zero a h = absurd (omega arith)
    below (suc n) zero h = or_zero_left 0
    below (suc n) (suc a) h = omega (arith, or_digit (suc a) 0, below n (suc a / 2) (omega arith))

two_pow_pos : (k : ℕ) → 0 < 2 ^ k
two_pow_pos zero = omega arith
two_pow_pos (suc k) = omega (arith, two_pow_pos k, pow-suc 2 k)

div_double : (a p : ℕ) → a / (p * 2) ≡ a / 2 / p
div_double a p = ap (λ n. a / n) (mul_comm p 2) ∙ sym (div-div-eq-div-mul a 2 p)

mod_double : (a p : ℕ) → a % (p * 2) ≡ a / 2 % p * 2 + a % 2
mod_double a p = omega (
  arith,
  div_double a p,
  mod-eq-sub-mul-div a (p * 2),
  mod-eq-sub-mul-div (a / 2) p,
  mul-div-le (a / 2) p,
  ap (λ n. p * n) (div_double a p),
)

-- `a & (2^k - 1)` is `a % 2^k`.
pub and_mask : (k a : ℕ) → bit_and a (2 ^ k - 1) ≡ a % 2 ^ k
and_mask zero a = omega (arith, and_zero_right a)
and_mask (suc k) a =
    let half : (2 ^ suc k - 1) / 2 ≡ 2 ^ k - 1 = omega (arith, pow-suc 2 k, two_pow_pos k) in
    omega (
      arith,
      and_digit a (2 ^ suc k - 1),
      ap (bit_and (a / 2)) half,
      and_mask k (a / 2),
      pow-suc 2 k,
      two_pow_pos k,
      mod_double a (2 ^ k),
      ap (λ n. a % n) (pow-suc 2 k),
    )

and_half : (a b : ℕ) → bit_and a b / 2 ≡ bit_and (a / 2) (b / 2)
and_half a b = omega (arith, and_digit a b)

pub div_two_pow : (k a : ℕ) → a / 2 ^ suc k ≡ a / 2 / 2 ^ k
div_two_pow k a = ap (λ n. a / n) (pow-suc 2 k) ∙ div_double a (2 ^ k)

-- A shifted mask picks out the digits above the shift.
pub and_shifted : (k a m : ℕ) → bit_and a (m * 2 ^ k) / 2 ^ k ≡ bit_and (a / 2 ^ k) m
and_shifted zero a m =
    let one : m * 2 ^ 0 ≡ m = omega arith in
    let low : a / 2 ^ 0 ≡ a = omega arith in rw (one, low) (omega arith)
and_shifted (suc k) a m =
    let half : m * 2 ^ suc k / 2 ≡ m * 2 ^ k = omega (arith, ap (λ n. m * n) (pow-suc 2 k)) in
    div_two_pow k (bit_and a (m * 2 ^ suc k))
    ∙ ap (λ n. n / 2 ^ k) (and_half a (m * 2 ^ suc k) ∙ ap (bit_and (a / 2)) half)
    ∙ and_shifted k (a / 2) m
    ∙ ap (λ n. bit_and n m) (sym (div_two_pow k a))

-- Numbers with no digit in common add up.
pub or_low : (k a b : ℕ) → b < 2 ^ k → bit_or (a * 2 ^ k) b ≡ a * 2 ^ k + b
or_low zero a b h =
    let none : b ≡ 0 = omega arith in rw none (or_zero_right (a * 2 ^ 0) ∙ omega arith)
or_low (suc k) a b h =
    let half : a * 2 ^ suc k / 2 ≡ a * 2 ^ k = omega (arith, ap (λ n. a * n) (pow-suc 2 k)) in
    omega (
      arith,
      or_digit (a * 2 ^ suc k) b,
      ap (λ n. bit_or n (b / 2)) half,
      ap (λ n. a * n) (pow-suc 2 k),
      or_low k a (b / 2) (omega (arith, pow-suc 2 k)),
    )

-- Adding `2^k` to a number whose digit `k` is 0 sets that digit and no other.
pub add_digit_self : (k a : ℕ) → a / 2 ^ k % 2 ≡ 0 → (a + 2 ^ k) / 2 ^ k % 2 ≡ 1
add_digit_self zero a h = omega arith
add_digit_self (suc k) a h =
    let half : (a + 2 ^ suc k) / 2 ≡ a / 2 + 2 ^ k = omega (arith, pow-suc 2 k) in
    omega (
      arith,
      div_two_pow k (a + 2 ^ suc k),
      ap (λ n. n / 2 ^ k) half,
      div_two_pow k a,
      add_digit_self k (a / 2) (omega (arith, div_two_pow k a)),
    )

pub add_digit_ne : (k l a : ℕ) → a / 2 ^ k % 2 ≡ 0 → k ≢ l → (a + 2 ^ k) / 2 ^ l % 2 ≡ a / 2 ^ l % 2
add_digit_ne zero zero a h ne = absurd (ne refl)
add_digit_ne zero (suc l) a h ne =
    let half : (a + 2 ^ 0) / 2 ≡ a / 2 = omega arith in
    omega (arith, div_two_pow l (a + 2 ^ 0), div_two_pow l a, ap (λ n. n / 2 ^ l) half)
add_digit_ne (suc k) zero a h ne = omega (arith, pow-suc 2 k)
add_digit_ne (suc k) (suc l) a h ne =
    let half : (a + 2 ^ suc k) / 2 ≡ a / 2 + 2 ^ k = omega (arith, pow-suc 2 k) in
    omega (
      arith,
      div_two_pow l (a + 2 ^ suc k),
      div_two_pow l a,
      ap (λ n. n / 2 ^ l) half,
      add_digit_ne k l (a / 2) (omega (arith, div_two_pow k a)) (λ e. ne (ap suc e)),
    )

-- Taking `2^k` from a number whose digit `k` is 1 gives one whose digit `k` is 0.
pub sub_digit_self :
    (k a : ℕ) → a / 2 ^ k % 2 ≡ 1 → ((a - 2 ^ k) / 2 ^ k % 2 ≡ 0) × (a - 2 ^ k + 2 ^ k ≡ a)
sub_digit_self zero a h = omega arith
sub_digit_self (suc k) a h =
    let (low, sum) = sub_digit_self k (a / 2) (omega (arith, div_two_pow k a)) in
    let half : (a - 2 ^ suc k) / 2 ≡ a / 2 - 2 ^ k = omega (arith, pow-suc 2 k) in
    (
      omega (arith, div_two_pow k (a - 2 ^ suc k), ap (λ n. n / 2 ^ k) half, low),
      omega (arith, pow-suc 2 k, sum),
    )
