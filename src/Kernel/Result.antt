-- ===== src/Kernel/Result.antt =====
-- What a kernel function does: it returns, it panics (`panic` never returns), a loop has used up the
-- rounds that the model gives it, or it stores through a pointer that is not one of the program's
-- objects: the memory of the model has no such place, and nothing is said of what follows.
use Prim.Native.String.{String}
use eg_gs.Base.{ℕ, ◌%◌, ◌^◌, update, Bool, ◌≡◌, refl}
use eg_gs.Kernel.{Kernel, Ptr, BufferHead, Request}

pub data Result (A : Type 0) : Type 0 where
  ok : A → Kernel → Result A
  panic : String → Result A
  hang : Result A
  wild : Result A

abbrev pub M : Type 0 → Type 0
M A = Kernel → Result A

abbrev pub Void : Type 0
Void = Unit {0}

module _ {A B : Type 0} where
  abbrev pub and_then : Result A → (A → M B) → Result B
  and_then (ok a k) f = f a k
  and_then (panic s) f = panic s
  and_then hang f = hang
  and_then wild f = wild

  infixl 5 ◌>>=◌
  abbrev pub ◌>>=◌ : M A → (A → M B) → M B
  m >>= f = λ k. and_then (m k) f

module _ {B : Type 0} where
  infixl 5 ◌>>◌
  abbrev pub ◌>>◌ : M Void → M B → M B
  m >> n = m >>= λ _. n

abbrev pub pure : {A : Type 0} → A → M A
pure = ok

abbrev pub skip : M Void
skip = ok tt

abbrev pub fail : {A : Type 0} → String → M A
fail s k = panic s

abbrev pub spin : {A : Type 0} → M A
spin k = hang

abbrev pub stray : {A : Type 0} → M A
stray k = wild

-- A read of the state, and a change of it.
abbrev pub read : {A : Type 0} → (Kernel → A) → M A
read f k = ok (f k) k

abbrev pub modify : (Kernel → Kernel) → M Void
modify f k = ok tt (f k)

-- `bh->...` and a change of the buffer head `bh`.
abbrev pub buffer : Ptr → M BufferHead
buffer bh = read λ k. k.buffers bh

abbrev pub with_buffer : Kernel → Ptr → (BufferHead → BufferHead) → Kernel
with_buffer k bh f = record k { buffers = update k.buffers bh (f (k.buffers bh)) }

abbrev pub set_buffer : Ptr → (BufferHead → BufferHead) → M Void
set_buffer bh f = modify λ k. with_buffer k bh f

abbrev pub request : Ptr → M Request
request req = read λ k. k.requests req

abbrev pub with_request : Kernel → Ptr → (Request → Request) → Kernel
with_request k req f = record k { requests = update k.requests req (f (k.requests req)) }

abbrev pub set_request : Ptr → (Request → Request) → M Void
set_request req f = modify λ k. with_request k req f

-- An `unsigned char`.
abbrev pub byte : ℕ → ℕ
byte n = n % 2 ^ 8

-- `cli()` and `sti()`.
abbrev pub set_interrupts : Bool → M Void
set_interrupts b = modify λ k. record k { interrupts = b }

-- A run that returns, with what holds then.
pub data Returns {A : Type 0} (P : A → Kernel → Type 0) : Result A → Type 0 where
  returns : {a : A} {k : Kernel} → P a k → Returns P (ok a k)

-- Partial correctness: what holds of every run that returns.
abbrev pub Ensures : {A : Type 0} → (A → Kernel → Type 0) → Result A → Type 0
Ensures P (ok a k) = P a k
Ensures P (panic s) = Unit {0}
Ensures P hang = Unit {0}
Ensures P wild = Unit {0}

pub Ensures-bind :
    {A B : Type 0} (P : A → Kernel → Type 0) (Q : B → Kernel → Type 0) (r : Result A) (f : A → M B)
    → Ensures P r
    → ((a : A) (k : Kernel) → P a k → Ensures Q (f a k))
    → Ensures Q (and_then r f)
Ensures-bind P Q (ok a k) f p next = next a k p
Ensures-bind P Q (panic s) f p next = tt
Ensures-bind P Q hang f p next = tt
Ensures-bind P Q wild f p next = tt

pub Returns-inv :
    {A : Type 0} {P : A → Kernel → Type 0} {r : Result A}
    → Returns P r
    → (a : A) × (k : Kernel) × (r ≡ ok a k) × P a k
Returns-inv (returns p) = (_, _, refl, p)

pub weaken :
    {A : Type 0} {P Q : A → Kernel → Type 0} {r : Result A}
    → Returns P r
    → ((a : A) (k : Kernel) → P a k → Q a k)
    → Returns Q r
weaken (returns p) f = returns (f _ _ p)

-- What follows a run that returns.
pub Returns-then :
    {A B : Type 0} {P : A → Kernel → Type 0} {r : Result A} (Q : Result B → Type 0) (f : A → M B)
    → Returns P r
    → ((a : A) (k : Kernel) → P a k → Q (f a k))
    → Q (and_then r f)
Returns-then Q f (returns p) next = next _ _ p

pub and_then_assoc :
    {A B C : Type 0} (r : Result A) (f : A → M B) (g : B → M C)
    → and_then (and_then r f) g ≡ and_then r (λ a k. and_then (f a k) g)
and_then_assoc (ok a k) f g = refl
and_then_assoc (panic s) f g = refl
and_then_assoc hang f g = refl
and_then_assoc wild f g = refl
