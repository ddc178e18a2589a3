-- ===== src/Format/Spec.antt =====
-- How `vsprintf` of util.c reads the flags, the width, the precision and the qualifier.
use eg_gs.Base.{
  ℕ, ◌-◌, ◌%◌, ◌^◌, true, ◌||◌, Option, none, some, List, [], ◌∷◌, leb, ◌==◌, if◌then◌else◌,
}
use eg_gs.Format.{Flags, is_digit, skip_atoi}

-- An argument: a number or a pointer by its 32 bits, or a C string.
pub data Arg : Type 0 where
  word : ℕ → Arg
  text : List ℕ → Arg

-- `case '-'` to `case '0'` after `repeat:`.
unfoldable pub parse_flags : List ℕ → Flags → Flags × List ℕ
parse_flags [] f = (f, [])
parse_flags (c ∷ fmt) f =
    let dash = parse_flags fmt (record f { left = true }) in
    let plus = parse_flags fmt (record f { plus = true }) in
    let space = parse_flags fmt (record f { space = true }) in
    let special = parse_flags fmt (record f { special = true }) in
    let zeropad = parse_flags fmt (record f { zeropad = true }) in
    if c == b'-'
    then dash
    else if c == b'+'
    then plus
    else if c == b' '
    then space
    else if c == b'#'
    then special
    else if c == b'0'
    then zeropad
    else (f, c ∷ fmt)

-- A conversion as far as it has been read, with the arguments and the format left.
pub record Spec : Type 0 where
  pub flags : Flags
  pub width : Option ℕ
  pub precision : Option ℕ
  pub args : List Arg
  pub fmt : List ℕ

-- A width of `*` that is negative is a width to the left. `fmt` stays at the `*`. The lowest `int`,
-- which `-field_width` leaves negative, is a width of 0.
unfoldable pub star_width : Spec → Option Spec
star_width s = elim s.args [
  | word n ∷ args ↦ some (
      if leb (2 ^ 31) n
      then record s {
        width = some ((2 ^ 32 - n) % 2 ^ 31);
        args = args;
        flags = record s.flags { left = true };
      }
      else record s { width = some n; args = args })
  | _ ↦ none
]

-- The field width; `none` on a bad argument.
unfoldable pub parse_width : Spec → Option Spec
unfolding star_width skip_atoi
parse_width s = elim s.fmt [
  | c ∷ fmt ↦
      let (i, rest) = skip_atoi 0 s.fmt in
      if is_digit c
      then some (record s { width = some i; fmt = rest })
      else if c == b'*'
      then star_width s
      else some s
  | [] ↦ some s
]

-- The precision behind the point at the head of `fmt`.
unfoldable pub point_precision : Spec → List ℕ → Option Spec
unfolding skip_atoi
point_precision s fmt = elim fmt [
  | c ∷ rest ↦
      let (i, after) = skip_atoi 0 (c ∷ rest) in
      if is_digit c
      then some (record s { precision = some i; fmt = after })
      else if c == b'*'
      then elim s.args [
        | word n ∷ args ↦ some (record s {
          precision = some (if leb (2 ^ 31) n then 0 else n);
          args = args;
          fmt = rest;
        })
        | _ ↦ none
      ]
      else some (record s { precision = some 0; fmt = c ∷ rest })
  | [] ↦ some (record s { precision = some 0; fmt = [] })
]

unfoldable pub parse_precision : Spec → Option Spec
unfolding point_precision
parse_precision s = elim s.fmt [
  | c ∷ rest ↦ if c == b'.' then point_precision s rest else some s
  | [] ↦ some s
]

-- The qualifier, which nothing reads.
unfoldable pub parse_qualifier : List ℕ → List ℕ
parse_qualifier [] = []
parse_qualifier (c ∷ fmt) = if c == b'h' || c == b'l' || c == b'L' then fmt else c ∷ fmt

abbrev pub or_zero : Option ℕ → ℕ
or_zero none = 0
or_zero (some n) = n
