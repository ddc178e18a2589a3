-- ===== src/Format/Numeral.antt =====
-- What `number` writes is the number: its digits, read in the base, with the sign, prefix and
-- padding that the flags ask for.
use Prim.Native.Nat.pow
use Prim.Native.Nat.{max}
use mathlib.Core.List.{append_assoc}
use eg_gs.Base.{
  ℕ, zero, suc, ◌+◌, ◌-◌, ◌*◌, ◌/◌, ◌%◌, ◌^◌, ◌≤◌, ◌<◌, ◌≡◌, refl, ◌∙◌, sym, ap, inl, inr, Bool,
  true, false, Bool-cases, List, [], ◌∷◌, ◌++◌, length, replicate, length-append, length-replicate,
  leb, ◌==◌, if◌then◌else◌, arith,
}
use eg_gs.Format.{Flags, digit_char, digit_loop, backwards, magnitude, sign_of, prefix_of, tmp_of}

-- The digit that a character stands for.
unfoldable pub digit_value : ℕ → ℕ
digit_value c = if leb b'a' c then c - b'a' + 10 else if leb b'A' c then c - b'A' + 10 else c - b'0'

-- The number that the digits mean, the highest first.
unfoldable pub read_digits : (base acc : ℕ) → List ℕ → ℕ
read_digits base acc [] = acc
read_digits base acc (c ∷ s) = read_digits base (acc * base + digit_value c) s

-- The number of `tmp`, whose first element is the lowest digit.
pub tmp_value : (base : ℕ) → List ℕ → ℕ
tmp_value base [] = 0
tmp_value base (c ∷ tmp) = tmp_value base tmp * base + digit_value c

digit_value-digit_char : (small : Bool) (d : ℕ) → d < 36 → digit_value (digit_char small d) ≡ d
unfolding digit_value
digit_value-digit_char true d h = ground arith
digit_value-digit_char false d h = ground arith

-- A round divides by two at least.
quotient_lt : (n num base : ℕ) → 2 ≤ base → num < 2 * n → num / base < n
quotient_lt n num base h lt = grind arith

tmp_value-digit_loop :
    (n : ℕ) (small : Bool) (num base bound : ℕ)
    → bound ≡ 2 ^ n
    → num < bound
    → 2 ≤ base
    → base ≤ 36
    → tmp_value base (digit_loop n small num base) ≡ num
unfolding digit_loop tmp_value
tmp_value-digit_loop zero small num base bound e lt low high = omega (arith, pow.zero 2)
tmp_value-digit_loop (suc n) small num base bound e lt low high = elim (Bool-cases (num == 0)) [
  | inl none_left ↦ rw none_left (ground arith)
  | inr more ↦
      let rest =
        tmp_value-digit_loop n small (num / base) base (2 ^ n) refl
          (quotient_lt (2 ^ n) num base low (omega (arith, pow.suc 2 n))) low high in
      let digit = digit_value-digit_char small (num % base) (omega arith) in
      rw (more, rest, digit) (omega arith)
]

length-digit_loop-le :
    (n : ℕ) (small : Bool) (num base : ℕ) → length (digit_loop n small num base) ≤ n
unfolding digit_loop
length-digit_loop-le zero small num base = omega arith
length-digit_loop-le (suc n) small num base =
    ground (arith, length-digit_loop-le n small (num / base) base)

backwards_out : (tmp out : List ℕ) → backwards tmp out ≡ backwards tmp [] ++ out
unfolding backwards
backwards_out [] out = refl
backwards_out (c ∷ tmp) out =
    backwards_out tmp (c ∷ out)
    ∙ (sym (append_assoc (backwards tmp []) (c ∷ []) out)
        ∙ ap (λ l. l ++ out) (sym (backwards_out tmp (c ∷ []))))

-- What the writing loops make of the digits: `body` is the part that is read as a number.
record Padded (left : Bool) (size : ℕ) (sign prefix zeros digits out : List ℕ) : Type 0 where
  lead : ℕ
  fill : ℕ
  trail : ℕ
  is :
      out
      ≡ replicate lead b' '
        ++ (sign
            ++ (prefix ++ ((replicate fill b'0' ++ (zeros ++ digits)) ++ replicate trail b' ')))
  all : lead + (fill + trail) ≡ size
  left_lead : left ≡ true → lead + fill ≡ 0
  right_trail : left ≡ false → trail ≡ 0

-- For a number of 32 bits and a base from 2 to 36, the loop that fills `tmp` has divided the number
-- down to 0 after at most 32 digits, which fit into the 36 bytes of `tmp`; and those digits, the
-- lowest first, are the number's.
pub tmp_of-fits :
    (f : Flags) (num base : ℕ)
    → num < 2 ^ 32
    → 2 ≤ base
    → base ≤ 36
    → (length (tmp_of f num base) ≤ 32) × (tmp_value base (tmp_of f num base) ≡ num)
tmp_of-fits f num base h low high = elim (Bool-cases (num == 0)) [
  | inl e ↦ rw e (omega arith, unfold tmp_value digit_value in ground arith)
  | inr e ↦ rw e (
    length-digit_loop-le 32 f.small num base,
    tmp_value-digit_loop 32 f.small num base (2 ^ 32) refl h low high,
  )
]

length-append_codes : (xs ys : List ℕ) → length (xs ++ ys) ≡ length xs + length ys
length-append_codes = length-append

length-replicate_codes : (n c : ℕ) → length (replicate n c) ≡ n
length-replicate_codes = length-replicate

ruleset lengths = (arith, length-append_codes, length-replicate_codes)

-- What `number` has written: padding, the sign, the prefix, and a numeral.
pub record Numeral (num base size precision : ℕ) (f : Flags) (out : List ℕ) : Type 0 where
  pub lead : ℕ
  pub body : List ℕ
  pub trail : ℕ
  pub is :
      out
      ≡ replicate lead b' '
        ++ (sign_of f num ++ (prefix_of f base ++ (body ++ replicate trail b' ')))
  pub value : read_digits base 0 body ≡ magnitude f num
  pub digits : precision ≤ length body
  pub left_lead : f.left ≡ true → lead ≡ 0
  pub right_trail : f.left ≡ false → trail ≡ 0
  pub width :
      length out
      ≡ max size (
          length (sign_of f num)
          + length (prefix_of f base)
          + max precision (length (tmp_of f (magnitude f num) base)))

-- The digits fit into the 36 bytes of `tmp`.
length-tmp_of : (f : Flags) (num base : ℕ) → length (tmp_of f num base) ≤ 32
length-tmp_of f num base = elim (Bool-cases (num == 0)) [
  | inl e ↦ rw e (omega arith)
  | inr e ↦ rw e (length-digit_loop-le 32 f.small num base)
]
