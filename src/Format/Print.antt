-- ===== src/Format/Print.antt =====
-- `vsprintf`, `printk` and the message of `panic`, from util.c.
use eg_gs.Base.{
  ℕ, zero, suc, ◌-◌, ◌%◌, ◌^◌, true, not, ◌||◌, Option, none, some, List, [], ◌∷◌, ◌++◌, length,
  replicate, codes, ltb, ◌==◌, if◌then◌else◌,
}
use eg_gs.Screen.{Screen, puts}
use eg_gs.Format.{no_flags, number, strlen}
use eg_gs.Format.Spec.{
  Arg, word, text, Spec, parse_flags, parse_width, parse_precision, parse_qualifier, or_zero,
}

-- What `vsprintf` does: the text it writes, and the stores through the pointers of `%n`, newest
-- first; an argument that is missing or of the wrong kind; or more rounds than it was given.
pub data Printed : Type 0 where
  done : (out : List ℕ) → (stores : List (ℕ × ℕ)) → Printed
  bad_argument out_of_rounds : Printed

-- What a conversion leads to: what it writes, the arguments and the format left, and the store of
-- `%n`.
pub record Step : Type 0 where
  pub out : List ℕ
  pub args : List Arg
  pub fmt : List ℕ
  pub stores : List (ℕ × ℕ)

abbrev pub wrote : List ℕ → List Arg → List ℕ → Option Step
wrote out args fmt = some (record { out = out; args = args; fmt = fmt; stores = [] })

-- A number in the base; the case labels set the flags.
unfoldable pub put_number : Spec → (base : ℕ) → List ℕ → Option Step
unfolding number
put_number s base rest = elim s.args [
  | word n ∷ args ↦ wrote (number n base (or_zero s.width) (or_zero s.precision) s.flags) args rest
  | _ ↦ none
]

-- `case 'c'`.
unfoldable pub put_char : Spec → List ℕ → Option Step
put_char s rest = elim s.args [
  | word n ∷ args ↦
      let pad = replicate (or_zero s.width - 1) b' ' in
      let c = n % 2 ^ 8 ∷ [] in wrote (if s.flags.left then c ++ pad else pad ++ c) args rest
  | _ ↦ none
]

-- The first `len` bytes that `for (i = 0; i < len; ++i) *str++ = *s++` copies.
unfoldable pub take : ℕ → List ℕ → List ℕ
take zero s = []
take (suc n) [] = []
take (suc n) (c ∷ s) = c ∷ take n s

-- `case 's'`.
unfoldable pub put_text : Spec → List ℕ → Option Step
unfolding strlen take
put_text s rest = elim s.args [
  | text t ∷ args ↦
      let len = elim s.precision as (λ _. ℕ) [
        | none ↦ strlen t
        | some p ↦ if ltb p (strlen t) then p else strlen t
      ] in
      let pad = replicate (or_zero s.width - len) b' ' in
      wrote (if s.flags.left then take len t ++ pad else pad ++ take len t) args rest
  | _ ↦ none
]

-- `case 'p'`: without a width it is eight, filled with zeros.
abbrev pub pointer_spec : Spec → Spec
pointer_spec s = elim s.width [
  | none ↦ record s { width = some 8; flags = record s.flags { zeropad = true } }
  | some _ ↦ s
]

-- `case 'n'`, where `written` bytes have been written so far.
unfoldable pub put_count : Spec → (written : ℕ) → List ℕ → Option Step
put_count s written rest = elim s.args [
  | word p ∷ args ↦ some (record { out = []; args = args; fmt = rest; stores = (p, written) ∷ [] })
  | _ ↦ none
]

-- The switch on the conversion at the head of `fmt`. At the end of the format the default writes
-- `%`.
unfoldable pub convert : Spec → (written : ℕ) → (fmt : List ℕ) → Option Step
unfolding put_number put_char put_text put_count
convert s written [] = wrote (b'%' ∷ []) s.args []
convert s written (c ∷ rest) =
    if c == b'c'
    then put_char s rest
    else if c == b's'
    then put_text s rest
    else if c == b'o'
    then put_number s 8 rest
    else if c == b'p'
    then put_number (pointer_spec s) 16 rest
    else if c == b'x'
    then put_number (record s { flags = record s.flags { small = true } }) 16 rest
    else if c == b'X'
    then put_number s 16 rest
    else if c == b'd' || c == b'i'
    then put_number (record s { flags = record s.flags { sign = true } }) 10 rest
    else if c == b'u'
    then put_number s 10 rest
    else if c == b'n'
    then put_count s written rest
    else if c == b'%'
    then wrote (b'%' ∷ []) s.args rest
    else wrote (b'%' ∷ c ∷ []) s.args rest

-- Everything from the `%` on, which is not in `fmt`.
unfoldable pub conversion : List ℕ → List Arg → (written : ℕ) → Option Step
unfolding parse_flags parse_width parse_precision parse_qualifier convert
conversion fmt args written =
    let (flags, fmt) = parse_flags fmt no_flags in
    elim (parse_width
      (record { flags = flags; width = none; precision = none; args = args; fmt = fmt })) [
        | none ↦ none
        | some s ↦ elim (parse_precision s) [
          | none ↦ none
          | some s' ↦ convert s' written (parse_qualifier s'.fmt)
        ]
      ]

-- The loop of `vsprintf`, with what has been written and stored so far.
unfoldable pub vsprintf_loop : (rounds : ℕ) → List ℕ → List Arg → List ℕ → List (ℕ × ℕ) → Printed
vsprintf_loop rounds [] args out stores = done out stores
vsprintf_loop zero (c ∷ fmt) args out stores = out_of_rounds
vsprintf_loop (suc n) (c ∷ fmt) args out stores =
    let copied = vsprintf_loop n fmt args (out ++ c ∷ []) stores in
    if not (c == b'%') then copied else elim (conversion fmt args (length out)) [
      | none ↦ bad_argument
      | some s ↦ vsprintf_loop n s.fmt s.args (out ++ s.out) (s.stores ++ stores)
    ]

-- Each round takes at least one byte of the format.
unfoldable pub vsprintf : (fmt : List ℕ) → List Arg → Printed
vsprintf fmt args = vsprintf_loop (length fmt) fmt args [] []

-- What is read from a buffer as a string: the bytes before the first zero.
unfoldable pub c_string : List ℕ → List ℕ
c_string [] = []
c_string (c ∷ s) = let rest = c_string s in if c == 0 then [] else c ∷ rest

-- `puts` of what was printed.
abbrev pub show : Screen → Printed → Option Screen
show s (done out stores) = some (puts s (c_string out))
show s bad_argument = none
show s out_of_rounds = none

-- `printk`: the text goes to the screen. Its buffer of 1024 bytes is not checked, and a text that
-- does not fit is written past it; there is no such limit here.
unfoldable pub printk : Screen → (fmt : List ℕ) → List Arg → Option Screen
printk s fmt args = show s (vsprintf fmt args)

-- What `panic` shows before it stops for good.
unfoldable pub panic : Screen → List ℕ → Option Screen
unfolding printk
panic s message = printk s (codes "Kernel panic: %s\n\r") (text message ∷ [])
