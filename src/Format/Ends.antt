-- ===== src/Format/Ends.antt =====
-- That the loop of `vsprintf` ends: a conversion leaves no more of the format than it found.
use eg_gs.Base.{
  ℕ, zero, suc, ◌+◌, ◌-◌, ◌*◌, ◌≤◌, ◌≢◌, subst, inl, inr, Bool, true, false, Option-cases, Option,
  none, some, List, [], ◌∷◌, ◌++◌, length, arith, if◌then◌else◌,
}
use eg_gs.Format.{Flags, skip_atoi, no_flags}
use eg_gs.Format.Spec.{
  Arg, Spec, parse_flags, parse_width, parse_precision, point_precision, parse_qualifier,
}
use eg_gs.Format.Print.{
  out_of_rounds, Step, conversion, convert, vsprintf_loop, put_number, put_char, put_text,
  put_count, wrote,
}

skip_atoi-le : (i : ℕ) (s : List ℕ) → length (skip_atoi i s).1 ≤ length s
unfolding skip_atoi
skip_atoi-le i [] = omega arith
skip_atoi-le i (c ∷ s) = ground (arith, skip_atoi-le (i * 10 + c - b'0') s)

parse_flags-le : (fmt : List ℕ) (f : Flags) → length (parse_flags fmt f).1 ≤ length fmt
unfolding parse_flags
parse_flags-le [] f = omega arith
parse_flags-le (c ∷ fmt) f = ground (
  arith,
  parse_flags-le fmt (record f { left = true }),
  parse_flags-le fmt (record f { plus = true }),
  parse_flags-le fmt (record f { space = true }),
  parse_flags-le fmt (record f { special = true }),
  parse_flags-le fmt (record f { zeropad = true }),
)

-- What is left of the format, if anything comes of it.
abbrev Within : ℕ → Option Spec → Type 0
Within n none = Unit {0}
Within n (some s) = length s.fmt ≤ n

parse_width-Within : (s : Spec) → Within (length s.fmt) (parse_width s)
unfolding parse_width
parse_width-Within s = ground (arith, skip_atoi-le 0 s.fmt)

point_precision-Within : (s : Spec) (fmt : List ℕ) → Within (length fmt) (point_precision s fmt)
unfolding point_precision
point_precision-Within s [] = omega arith
point_precision-Within s (c ∷ rest) = ground (arith, skip_atoi-le 0 (c ∷ rest))

parse_precision-Within : (s : Spec) → Within (length s.fmt) (parse_precision s)
unfolding parse_precision
parse_precision-Within s = grind (arith, point_precision-Within)

parse_qualifier-le : (fmt : List ℕ) → length (parse_qualifier fmt) ≤ length fmt
unfolding parse_qualifier
parse_qualifier-le [] = omega arith
parse_qualifier-le (c ∷ fmt) = ground arith

unfoldable StepWithin : ℕ → Option Step → Type 0
StepWithin n none = Unit {0}
StepWithin n (some s) = length s.fmt ≤ n

StepWithin-if :
    (n : ℕ) (b : Bool) (x y : Option Step)
    → StepWithin n x
    → StepWithin n y
    → StepWithin n (if b then x else y)
StepWithin-if n false x y p q = q
StepWithin-if n true x y p q = p

put_number-Within :
    (s : Spec) (base : ℕ) (rest : List ℕ) → StepWithin (length rest) (put_number s base rest)
unfolding StepWithin put_number
put_number-Within s base rest = ground arith

put_char-Within : (s : Spec) (rest : List ℕ) → StepWithin (length rest) (put_char s rest)
unfolding StepWithin put_char
put_char-Within s rest = ground arith

put_text-Within : (s : Spec) (rest : List ℕ) → StepWithin (length rest) (put_text s rest)
unfolding StepWithin put_text
put_text-Within s rest = ground arith

put_count-Within :
    (s : Spec) (written : ℕ) (rest : List ℕ) → StepWithin (length rest) (put_count s written rest)
unfolding StepWithin put_count
put_count-Within s written rest = ground arith

StepWithin-suc : (n : ℕ) (x : Option Step) → StepWithin n x → StepWithin (suc n) x
unfolding StepWithin
StepWithin-suc n none h = h
StepWithin-suc n (some s) h = omega arith

StepWithin-wrote :
    (out : List ℕ) (args : List Arg) (rest : List ℕ)
    → StepWithin (length rest) (wrote out args rest)
unfolding StepWithin
StepWithin-wrote out args rest = omega arith

ruleset rules = (
  StepWithin-if, put_number-Within, put_char-Within, put_text-Within, put_count-Within,
  StepWithin-wrote,
)

convert-Within :
    (s : Spec) (written : ℕ) (fmt : List ℕ) → StepWithin (length fmt) (convert s written fmt)
unfolding convert
convert-Within s written [] = StepWithin-wrote (b'%' ∷ []) s.args []
convert-Within s written (c ∷ rest) =
    StepWithin-suc (length rest) (convert s written (c ∷ rest)) (search rules depth 14)

StepWithin-le : (m n : ℕ) (x : Option Step) → m ≤ n → StepWithin m x → StepWithin n x
unfolding StepWithin
StepWithin-le m n none p h = h
StepWithin-le m n (some s) p h = omega arith

StepWithin-bind :
    (n : ℕ) (o : Option Spec) (f : Spec → Option Step)
    → Within n o
    → ((s : Spec) → StepWithin (length s.fmt) (f s))
    → StepWithin n (elim o [ none ↦ none | some s ↦ f s ])
StepWithin-bind n none f h g = unfold StepWithin in omega arith
StepWithin-bind n (some s) f h g = StepWithin-le (length s.fmt) n (f s) h (g s)

conversion-Within :
    (fmt : List ℕ) (args : List Arg) (written : ℕ)
    → StepWithin (length fmt) (conversion fmt args written)
unfolding conversion
conversion-Within fmt args written =
    let flags = parse_flags fmt no_flags in
    let start : Spec = record {
      flags = flags.0;
      width = none;
      precision = none;
      args = args;
      fmt = flags.1;
    } in
    let tail = λ (s : Spec). convert s written (parse_qualifier s.fmt) in
    StepWithin-le (length flags.1) (length fmt) (conversion fmt args written)
      (parse_flags-le fmt no_flags)
      (StepWithin-bind (length flags.1) (parse_width start)
        (λ s. elim (parse_precision s) [ none ↦ none | some s' ↦ tail s' ])
        (parse_width-Within start)
        (λ s.
          StepWithin-bind (length s.fmt) (parse_precision s) tail (parse_precision-Within s) (λ s'.
            StepWithin-le (length (parse_qualifier s'.fmt)) (length s'.fmt) (tail s')
              (parse_qualifier-le s'.fmt) (convert-Within s' written (parse_qualifier s'.fmt)))))

-- For every format and every arguments, and for what has been written and stored so far: the loop of
-- `vsprintf` does not run out of rounds when it is given as many as the format has bytes, or more.
-- It ends with a text, or at an argument that is missing or of the wrong kind.
pub vsprintf_loop-ends :
    (rounds : ℕ) (fmt : List ℕ) (args : List Arg) (out : List ℕ) (stores : List (ℕ × ℕ))
    → length fmt ≤ rounds
    → vsprintf_loop rounds fmt args out stores ≢ out_of_rounds
unfolding vsprintf_loop
vsprintf_loop-ends rounds [] args out stores h = λ e. ground arith
vsprintf_loop-ends zero (c ∷ fmt) args out stores h = omega arith
vsprintf_loop-ends (suc n) (c ∷ fmt) args out stores h =
    let w = conversion-Within fmt args (length out) in
    let copied = vsprintf_loop-ends n fmt args (out ++ c ∷ []) stores in
    let after =
      λ (s : Step). vsprintf_loop-ends n s.fmt s.args (out ++ s.out) (s.stores ++ stores) in
    elim (Option-cases (conversion fmt args (length out))) [
      | inl e ↦ λ r. ground arith
      | inr (s, e) ↦ λ r.
          let left : length s.fmt ≤ length fmt =
            unfold StepWithin in (subst (StepWithin (length fmt)) (e) w) in
          ground (arith, after s)
    ]
