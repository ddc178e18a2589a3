-- ===== src/Format.antt =====
-- The formatted output of util.c. The flags and `number` stand here. A C string is the list of its bytes before the terminating zero, and what goes to `str`
-- is a list. `none` stands for the -1 of a width or precision that is not given.
pub mod Match
pub mod Ends
pub mod Numeral
pub mod Plain
pub mod Print
pub mod Spec
use eg_gs.Base.{
  ℕ, zero, suc, ◌+◌, ◌-◌, ◌*◌, ◌/◌, ◌%◌, ◌^◌, Bool, true, false, not, ◌&&◌, ◌||◌, Option, none,
  some, List, [], ◌∷◌, ◌++◌, length, replicate, codes, ltb, leb, ◌==◌, if◌then◌else◌,
}

-- `strlen`.
unfoldable pub strlen : List ℕ → ℕ
strlen [] = 0
strlen (c ∷ str) = strlen str + 1

abbrev pub is_digit : ℕ → Bool
is_digit c = leb b'0' c && leb c b'9'

-- `skip_atoi`: the number and what follows it. A number that does not fit an `int` overflows there.
unfoldable pub skip_atoi : ℕ → List ℕ → ℕ × List ℕ
skip_atoi i [] = (i, [])
skip_atoi i (c ∷ s) =
    let rest = skip_atoi (i * 10 + c - b'0') s in if is_digit c then rest else (i, c ∷ s)

-- The flag bits, from `ZEROPAD` to `SMALL`.
pub record Flags : Type 0 where
  pub zeropad : Bool
  pub sign : Bool
  pub plus : Bool
  pub space : Bool
  pub left : Bool
  pub special : Bool
  pub small : Bool

abbrev pub no_flags : Flags
no_flags = record {
  zeropad = false;
  sign = false;
  plus = false;
  space = false;
  left = false;
  special = false;
  small = false;
}

-- An element of `digits`.
abbrev pub digit_char : (small : Bool) → ℕ → ℕ
digit_char small d = if ltb d 10 then b'0' + d else (if small then b'a' else b'A') + (d - 10)

-- `while (num!=0) tmp[i++] = digits[do_div(num,base)]`, the elements of `tmp` in order. `do_div`
-- divides without sign, so 32 rounds are enough for 32 bits.
unfoldable pub digit_loop : (rounds : ℕ) → (small : Bool) → (num base : ℕ) → List ℕ
digit_loop zero small num base = []
digit_loop (suc n) small num base =
    let rest = digit_loop n small (num / base) base in
    if num == 0 then [] else digit_char small (num % base) ∷ rest

-- `i-- > 0` from the end of `tmp`.
unfoldable pub backwards : List ℕ → List ℕ → List ℕ
backwards [] out = out
backwards (c ∷ tmp) out = backwards tmp (c ∷ out)

abbrev pub is_negative : Flags → ℕ → Bool
is_negative f num = f.sign && leb (2 ^ 31) num

-- `-num` of an `int`, whose bit pattern `num` is.
abbrev pub magnitude : Flags → ℕ → ℕ
magnitude f num = if is_negative f num then (2 ^ 32 - num) % 2 ^ 32 else num

abbrev pub sign_of : Flags → ℕ → List ℕ
sign_of f num =
    if is_negative f num
    then b'-' ∷ []
    else if f.plus
    then b'+' ∷ []
    else if f.space
    then b' ' ∷ []
    else []

abbrev pub prefix_of : Flags → (base : ℕ) → List ℕ
prefix_of f base =
    if f.special
    then (if base == 8
        then b'0' ∷ []
        else if base == 16
        then b'0' ∷ digit_char f.small 33 ∷ []
        else [])
    else []

abbrev pub tmp_of : Flags → (num base : ℕ) → List ℕ
tmp_of f num base = if num == 0 then b'0' ∷ [] else digit_loop 32 f.small num base

-- The loops of `number` that write, with `size` bytes of padding due. The first padding loop runs
-- `size` down, and so leaves nothing to the later ones.
unfoldable pub padded :
    (left zeropad : Bool) → (size : ℕ) → (sign prefix zeros digits : List ℕ) → List ℕ
padded left zeropad size sign prefix zeros digits =
    (if zeropad || left then [] else replicate size b' ')
    ++ (sign
        ++ (prefix
            ++ ((if zeropad && not left then replicate size b'0' else [])
                ++ (zeros ++ (digits ++ (if left then replicate size b' ' else []))))))

-- `number`: what it writes. A negative width or precision acts as 0 here.
unfoldable pub number : (num base size precision : ℕ) → Flags → List ℕ
unfolding digit_loop backwards padded
number num base size precision f =
    let sign = sign_of f num in
    let prefix = prefix_of f base in
    let tmp = tmp_of f (magnitude f num) base in
    let i = length tmp in
    let precision' = if ltb precision i then i else precision in
    let size' = size - length sign - length prefix - precision' in
    if ltb base 2 || ltb 36 base
    then []
    else padded f.left (f.zeropad && not f.left) size' sign prefix (replicate (precision' - i) b'0')
        (backwards tmp [])
