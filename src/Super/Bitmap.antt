-- ===== src/Super/Bitmap.antt =====
-- The bit operations of fs/super.c on the bytes of a block, and the numbers stored in a block. A
-- word of the disk is little endian, so bit `n` of a map is bit `n % 8` of byte `n / 8`.
pub mod Laws
use eg_gs.Base.{
  ℕ, zero, suc, ◌+◌, ◌-◌, ◌*◌, ◌/◌, ◌%◌, ◌^◌, ◌≤◌, ◌<◌, ◌≡◌, ◌≢◌, refl, ap, Bool, true, false, Ram,
  update, ◌==◌, if◌then◌else◌, arith,
}

abbrev pub block_bits : ℕ
block_bits = 8192

unfoldable pub get_16 : Ram ℕ → ℕ → ℕ
get_16 m p = m p + 2 ^ 8 * m (p + 1)

unfoldable pub get_32 : Ram ℕ → ℕ → ℕ
unfolding get_16
get_32 m p = get_16 m p + 2 ^ 16 * get_16 m (p + 2)

unfoldable pub bit_at : Ram ℕ → ℕ → ℕ
bit_at m n = m (n / 8) / 2 ^ (n % 8) % 2

-- The scan from bit `n` on, with `left` bits to go.
unfoldable pub first_zero : ℕ → Ram ℕ → ℕ → ℕ
first_zero zero m n = n
first_zero (suc left) m n =
    let rest = first_zero left m (n + 1) in if bit_at m n == 0 then n else rest

-- `find_first_zero`: 8192 if every bit is set.
unfoldable pub find_first_zero : Ram ℕ → ℕ
unfolding first_zero
find_first_zero m = first_zero block_bits m 0

-- `btsl` and `btrl`.
unfoldable pub set_bit : Ram ℕ → ℕ → Ram ℕ
set_bit m n = if bit_at m n == 0 then update m (n / 8) (m (n / 8) + 2 ^ (n % 8)) else m

unfoldable pub clear_bit : Ram ℕ → ℕ → Ram ℕ
clear_bit m n = if bit_at m n == 0 then m else update m (n / 8) (m (n / 8) - 2 ^ (n % 8))
