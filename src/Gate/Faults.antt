-- ===== src/Gate/Faults.antt =====
-- `fault_handler` of isrs.c, and the messages that it shows.
use Prim.Native.String.{String}
use eg_gs.Base.{
  ℕ, zero, suc, ◌≡◌, refl, ap, ◌∙◌, Bool, ◌&&◌, not, true, false, none, some, List, [], ◌∷◌, ◌++◌,
  codes, has, arith, ltb, Bool-cases, inl, inr, holds_below, holds_below_sound, if◌then◌else◌,
}
use eg_gs.Screen.{Screen, puts, putch}
use eg_gs.Format.Print.{printk, show}
use eg_gs.Format.Plain.{vsprintf-text, c_string_whole}

-- `exception_messages`, in the order of the numbers of the exceptions.
unfoldable pub exception_messages : List String
exception_messages =
    "Division By Zero" ∷ "Debug" ∷ "Non Maskable Interrupt" ∷ "Breakpoint"
    ∷ "Into Detected Overflow" ∷ "Out of Bounds" ∷ "Invalid Opcode" ∷ "No Coprocessor"
    ∷ "Double Fault" ∷ "Coprocessor Segment Overrun" ∷ "Bad TSS" ∷ "Segment Not Present"
    ∷ "Stack Fault" ∷ "General Protection Fault" ∷ "Page Fault" ∷ "Unknown Interrupt"
    ∷ "Coprocessor Fault" ∷ "Alignment Check" ∷ "Machine Check" ∷ "Reserved" ∷ "Reserved"
    ∷ "Reserved" ∷ "Reserved" ∷ "Reserved" ∷ "Reserved" ∷ "Reserved" ∷ "Reserved" ∷ "Reserved"
    ∷ "Reserved" ∷ "Reserved" ∷ "Reserved" ∷ "Reserved" ∷ []

-- An element of the table as the bytes of its text.
unfoldable pub message_at : List String → ℕ → List ℕ
message_at [] n = []
message_at (m ∷ ms) zero = codes m
message_at (m ∷ ms) (suc n) = message_at ms n

-- What the handler does: it returns to the code that was interrupted, or stops the kernel for good,
-- with this screen; or `printk` misses an argument.
pub data Fault : Type 0 where
  goes_on : Screen → Fault
  halts : Screen → Fault
  bad_format : Fault

unfoldable pub fault_handler : Screen → (int_no : ℕ) → Fault
unfolding exception_messages message_at
fault_handler s int_no =
    if ltb int_no 32
    then elim (printk s (message_at exception_messages int_no) []) [
      | none ↦ bad_format
      | some s ↦ elim (printk s (codes " Exception. System Halted!\n") []) [
        | none ↦ bad_format
        | some s ↦ halts s
      ]
    ]
    else goes_on s

-- A text with neither a `%` nor a zero byte.
abbrev is_plain : List ℕ → Bool
is_plain t = not (has b'%' t) && not (has 0 t)

printk-plain : (s : Screen) (t : List ℕ) → is_plain t ≡ true → printk s t [] ≡ some (puts s t)
unfolding printk
printk-plain s t h =
    let format : has b'%' t ≡ false = ground (arith, h) in
    let string : has 0 t ≡ false = ground (arith, h) in
    ap (show s) ((vsprintf-text t [] [] [] format refl).0)
    ∙ ap (λ t. some (puts s t)) (c_string_whole t string)

puts-append : (s : Screen) (a b : List ℕ) → puts (puts s a) b ≡ puts s (a ++ b)
unfolding puts
puts-append s [] b = refl
puts-append s (c ∷ a) b = puts-append (putch s c) a b

plain_messages : holds_below 32 (λ n. is_plain (message_at exception_messages n)) ≡ true
unfolding holds_below exception_messages message_at
plain_messages = refl

-- For every screen: an interrupt below 32 shows the message of its number in the table, followed by
-- ` Exception. System Halted!` and a line end, and halts; any other leaves the screen as it was and
-- goes on.
pub fault_handler-halts :
    (s : Screen) (int_no : ℕ)
    → fault_handler s int_no ≡ (
        if ltb int_no 32
        then halts
            (puts s (message_at exception_messages int_no ++ codes " Exception. System Halted!\n"))
        else goes_on s)
unfolding fault_handler
fault_handler-halts s int_no = elim (Bool-cases (ltb int_no 32)) [
  | inl e ↦
      let m = message_at exception_messages int_no in
      let plain : is_plain m ≡ true =
        holds_below_sound 32 (λ n. is_plain (message_at exception_messages n)) int_no plain_messages
          (ground arith) in
      rw
        (
          e,
          printk-plain s m plain,
          printk-plain (puts s m) (codes " Exception. System Halted!\n") refl,
          puts-append s m (codes " Exception. System Halted!\n"),
        )
        refl
  | inr e ↦ rw e refl
]
