-- ===== src/Format/Plain.antt =====
-- What `vsprintf` copies without a conversion, and what `%s` and `panic` show.
use mathlib.Core.List.{append_assoc, append-nil}
use eg_gs.Base.{
  has-append, ℕ, zero, suc, ◌+◌, ◌-◌, ◌≤◌, ◌≡◌, refl, ◌∙◌, ap, sym, false, some, List, [], ◌∷◌,
  ◌++◌, length, has, codes, arith, ◌==◌, length-append,
}
use eg_gs.Screen.{Screen, puts}
use eg_gs.Format.{strlen}
use eg_gs.Format.Spec.{Arg, text, parse_flags, parse_width, parse_precision, parse_qualifier}
use eg_gs.Format.Print.{
  done, conversion, convert, vsprintf_loop, vsprintf, take, c_string, show, panic, printk, wrote,
  put_text,
}

vsprintf_loop-copy :
    (n c : ℕ) (fmt : List ℕ) (args : List Arg) (out : List ℕ) (stores : List (ℕ × ℕ))
    → (c == b'%') ≡ false
    → vsprintf_loop (suc n) (c ∷ fmt) args out stores
      ≡ vsprintf_loop n fmt args (out ++ c ∷ []) stores
unfolding vsprintf_loop
vsprintf_loop-copy n c fmt args out stores h = rw h refl

vsprintf_loop-plain :
    (n k : ℕ) (pre rest : List ℕ) (args : List Arg) (out : List ℕ) (stores : List (ℕ × ℕ))
    → n ≡ length pre + k
    → has b'%' pre ≡ false
    → vsprintf_loop n (pre ++ rest) args out stores ≡ vsprintf_loop k rest args (out ++ pre) stores
vsprintf_loop-plain n k [] rest args out stores e h =
    let e' : n ≡ k = omega arith in
    ap (λ m. vsprintf_loop m rest args out stores) e'
    ∙ ap (λ o. vsprintf_loop k rest args o stores) (sym (append-nil out))
vsprintf_loop-plain zero k (c ∷ pre) rest args out stores e h = ground arith
vsprintf_loop-plain (suc n) k (c ∷ pre) rest args out stores e h =
    let here : (c == b'%') ≡ false = ground arith in
    let there : has b'%' pre ≡ false = ground arith in
    vsprintf_loop-copy n c (pre ++ rest) args out stores here
    ∙ vsprintf_loop-plain n k pre rest args (out ++ c ∷ []) stores (omega arith) there
    ∙ ap (λ o. vsprintf_loop k rest args o stores) (append_assoc out (c ∷ []) pre)

take-strlen : (t : List ℕ) → take (strlen t) t ≡ t
unfolding take strlen
take-strlen [] = refl
take-strlen (c ∷ t) = ground (arith, take-strlen t)

conversion-text :
    (t : List ℕ) (rest : List ℕ) (args : List Arg) (written : ℕ)
    → conversion (b's' ∷ rest) (text t ∷ args) written ≡ wrote t args rest
unfolding conversion parse_flags parse_width parse_precision parse_qualifier convert put_text
conversion-text t rest args written = rw (take-strlen t) (ground arith)

-- The loop with as many rounds as there are bytes, on a text without conversions.
vsprintf_loop-rest :
    (n : ℕ) (post : List ℕ) (args : List Arg) (out : List ℕ)
    → length post ≤ n
    → has b'%' post ≡ false
    → vsprintf_loop n post args out [] ≡ done (out ++ post) []
unfolding vsprintf_loop
vsprintf_loop-rest n post args out k h =
    ap (λ f. vsprintf_loop n f args out []) (sym (append-nil post))
    ∙ vsprintf_loop-plain n (n - length post) post [] args out [] (omega arith) h

-- The loop at a `%s`.
vsprintf_loop-text :
    (n : ℕ) (t post : List ℕ) (args : List Arg) (out : List ℕ)
    → vsprintf_loop (suc n) (codes "%s" ++ post) (text t ∷ args) out []
      ≡ vsprintf_loop n post args (out ++ t) []
unfolding vsprintf_loop
vsprintf_loop-text n t post args out = rw (conversion-text t post args (length out)) refl

-- A format without a `%` is written as it is, and nothing is stored; and where a `%s` stands between
-- two such formats, the text of the first argument is written in its place, whatever bytes it has.
pub vsprintf-text :
    (pre post t : List ℕ) (args : List Arg)
    → has b'%' pre ≡ false
    → has b'%' post ≡ false
    → (vsprintf pre args ≡ done pre [])
      × (vsprintf (pre ++ (codes "%s" ++ post)) (text t ∷ args) ≡ done (pre ++ (t ++ post)) [])
unfolding vsprintf
vsprintf-text pre post t args h h' = (
  vsprintf_loop-rest (length pre) pre args [] (omega arith) h,
  vsprintf_loop-plain (length (pre ++ (codes "%s" ++ post))) (suc (suc (length post))) pre
        (codes "%s" ++ post) (text t ∷ args) [] [] (length-append pre (codes "%s" ++ post)) h
      ∙ vsprintf_loop-text (suc (length post)) t post args pre
      ∙ vsprintf_loop-rest (suc (length post)) post args (pre ++ t) (omega arith) h'
      ∙ ap (λ o. done o []) (append_assoc pre t post),
)

-- A text without a zero byte is a whole string.
pub c_string_whole : (t : List ℕ) → has 0 t ≡ false → c_string t ≡ t
unfolding c_string
c_string_whole [] h = refl
c_string_whole (c ∷ t) h =
    let other : (c == 0) ≡ false = ground (arith, h) in
    let rest : has 0 t ≡ false = ground (arith, h) in rw (other, c_string_whole t rest) refl

-- For every screen and every message without a zero byte: `panic` shows the message between
-- `Kernel panic: ` and a line end.
pub panic_shows :
    (s : Screen) (message : List ℕ)
    → has 0 message ≡ false
    → panic s message ≡ some (puts s (codes "Kernel panic: " ++ (message ++ codes "\n\r")))
unfolding panic printk
panic_shows s message h =
    let all = codes "Kernel panic: " ++ (message ++ codes "\n\r") in
    let whole : has 0 all ≡ false = ground (
      arith,
      has-append 0 (codes "Kernel panic: ") (message ++ codes "\n\r"),
      has-append 0 message (codes "\n\r"),
    ) in
    ap (show s) ((vsprintf-text (codes "Kernel panic: ") (codes "\n\r") message [] refl refl).1)
    ∙ ap (λ t. some (puts s t)) (c_string_whole all whole)
