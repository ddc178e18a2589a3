-- ===== src/Format/Match.antt =====
-- `match` of util.c, the comparison of names.
pub mod Same
use eg_gs.Base.{ℕ, zero, suc, ◌+◌, Bool, true, false, ltb, ◌==◌, if◌then◌else◌}

abbrev pub name_len : ℕ
name_len = 30

-- `repe cmpsb` over `n` bytes, with the zero flag so far. Both names are memories read from an
-- address on.
unfoldable pub compare_bytes : ℕ → (same : Bool) → (a b : ℕ → ℕ) → ℕ → Bool
compare_bytes zero same a b i = same
compare_bytes (suc n) same a b i =
    let rest = compare_bytes n true a b (i + 1) in if a i == b i then rest else false

-- `match`: 1 is `true`. For `len` 0 the flag is that of the last instruction before it, a parameter.
unfoldable pub match : (zero_flag : Bool) → (len : ℕ) → (k_name u_name : ℕ → ℕ) → Bool
unfolding compare_bytes
match zero_flag len k_name u_name =
    if ltb name_len len then false else compare_bytes len zero_flag k_name u_name 0
