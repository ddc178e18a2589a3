-- ===== src/Format/Match/Same.antt =====
-- `match` compares the bytes of two names.
use eg_gs.Base.{ℕ, zero, suc, ◌+◌, ◌<◌, ◌≤◌, ◌≡◌, ◌↔◌, refl, Bool, true, false, ltb, arith}
use eg_gs.Format.Match.{compare_bytes, match, name_len}

compare_bytes-equal :
    (n : ℕ) (same : Bool) (a b : ℕ → ℕ) (i : ℕ)
    → 0 < n
    → compare_bytes n same a b i ≡ true
    → (j : ℕ) → i ≤ j
    → j < i + n
    → a j ≡ b j
unfolding compare_bytes
compare_bytes-equal zero same a b i h e j l m = absurd (omega arith)
compare_bytes-equal (suc zero) same a b i h e j l m =
    let last : i ≡ j = omega arith in ground (arith, e)
compare_bytes-equal (suc (suc n)) same a b i h e j l m = ground (
  arith,
  e,
  compare_bytes-equal (suc n) true a b (i + 1) (omega arith),
  compare_bytes-equal (suc n) true a b (i + 1) (omega arith) (ground (arith, e)) j,
)

equal-compare_bytes :
    (n : ℕ) (same : Bool) (a b : ℕ → ℕ) (i : ℕ)
    → same ≡ true
    → ((j : ℕ) → i ≤ j → j < i + n → a j ≡ b j)
    → compare_bytes n same a b i ≡ true
unfolding compare_bytes
equal-compare_bytes zero same a b i t h = t
equal-compare_bytes (suc n) same a b i t h = ground (
  arith,
  h i,
  equal-compare_bytes n true a b (i + 1) refl (λ j l m. h j (omega arith) (omega arith)),
)

all_equal-compare_bytes :
    (n : ℕ) (flag : Bool) (a b : ℕ → ℕ)
    → 0 < n
    → ((j : ℕ) → j < n → a j ≡ b j)
    → compare_bytes n flag a b 0 ≡ true
unfolding compare_bytes
all_equal-compare_bytes zero flag a b l h = absurd (omega arith)
all_equal-compare_bytes (suc n) flag a b l h =
    ground (arith, h 0, equal-compare_bytes n true a b (0 + 1) refl (λ j _ m. h j (omega arith)))

-- For a length above 0, whatever the flag is that the comparison starts with: `match` answers yes
-- exactly if the length is 30 or less and the two names agree in that many bytes.
pub match-names :
    (zero_flag : Bool) (len : ℕ) (a b : ℕ → ℕ)
    → 0 < len
    → (match zero_flag len a b ≡ true) ↔ ((len ≤ name_len) × ((j : ℕ) → j < len → a j ≡ b j))
unfolding match
match-names flag len a b h = (
  λ e.
      let fits : (ltb name_len len) ≡ false = ground (arith, e) in
      let same : compare_bytes len flag a b 0 ≡ true = ground (arith, e) in
      (
        ground (arith, fits),
        λ j l. compare_bytes-equal len flag a b 0 h same j (omega arith) (omega arith),
      ),
  λ r.
      let fits : ltb name_len len ≡ false = ground (arith, r.0) in
      rw fits (all_equal-compare_bytes len flag a b h r.1),
)
