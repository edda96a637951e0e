-- ===== src/Common/Results.antt =====
-- Errors and panics as values.
use gotalk.Common.Tests.{if◌then◌else◌}
use mathlib.Core.Path.{◌≡◌, subst}
use mathlib.Core.Bool.{Bool, true, false}
use mathlib.Core.Option.{Option, none, some}

-- The errors that the program makes or tells apart. `failed` is any other error of a connection
-- (reset by the peer, broken pipe), which the program treats as one.
pub data Error : Type 0 where
  eof timeout failed : Error
  syntax range : Error
  unsupported_version : Error
  sock_closed : Error
  abnormal unsupported invalid_msg protocol_timeout unknown_error : Error
  illegal_message : Error
  unexpected_streaming_res : Error

-- Go's (value, error) pair, where the value is read only if the error is nil. `panic` is a Go panic.
pub data Result {ℓ} (A : Type ℓ) : Type ℓ where
  ok : A → Result A
  err : Error → Result A
  panic : Result A

infixl 5 ◌>>=◌
abbrev pub ◌>>=◌ {ℓ κ} : {A : Type ℓ} {B : Type κ} → Result A → (A → Result B) → Result B
ok a >>= f = f a
err e >>= f = err e
panic >>= f = panic

-- An index or slice expression panics if its bounds check fails.
abbrev pub or_panic {ℓ} : {A : Type ℓ} → Option A → Result A
or_panic none = panic
or_panic (some a) = ok a

abbrev pub check {ℓ} : {A : Type ℓ} → Bool → Result A → Result A
check true r = r
check false r = panic

pub ok-injective {ℓ} : {A : Type ℓ} {a b : A} → ok a ≡ ok b → a ≡ b
ok-injective e = cc

-- What holds of the value, where there is one.
abbrev pub Ensures {ℓ κ} : {A : Type ℓ} → (A → Type κ) → Result A → Type κ
Ensures P (ok a) = P a
Ensures P (err e) = Unit
Ensures P panic = Unit

pub Ensures->>= {ℓ κ ℓ' κ'} :
    {A : Type ℓ} {B : Type κ} (Q : A → Type ℓ') (P : B → Type κ') (m : Result A) (f : A → Result B)
    → Ensures Q m
    → ((a : A) → Q a → Ensures P (f a))
    → Ensures P (m >>= f)
Ensures->>= Q P (ok a) f q h = h a q
Ensures->>= Q P (err e) f q h = tt
Ensures->>= Q P panic f q h = tt

pub Ensures-any {ℓ} : {A : Type ℓ} (m : Result A) → Ensures (λ (a : A). Unit {0}) m
Ensures-any (ok a) = tt
Ensures-any (err e) = tt
Ensures-any panic = tt

pub Ensures-check {ℓ κ} :
    {A : Type ℓ} (P : A → Type κ) (b : Bool) (m : Result A) → Ensures P m → Ensures P (check b m)
Ensures-check P true m h = h
Ensures-check P false m h = tt

pub Ensures-if {ℓ κ} :
    {A : Type ℓ} (P : A → Type κ) (b : Bool) (m n : Result A)
    → Ensures P m
    → Ensures P n
    → Ensures P (if b then m else n)
Ensures-if P true m n h k = h
Ensures-if P false m n h k = k

pub Ensures-weaken {ℓ κ κ'} :
    {A : Type ℓ} (P : A → Type κ) (Q : A → Type κ') (m : Result A)
    → ((a : A) → P a → Q a)
    → Ensures P m
    → Ensures Q m
Ensures-weaken P Q (ok a) h p = h a p
Ensures-weaken P Q (err e) h p = tt
Ensures-weaken P Q panic h p = tt

pub Ensures-ok {ℓ κ} :
    {A : Type ℓ} (P : A → Type κ) (m : Result A) (a : A) → Ensures P m → m ≡ ok a → P a
Ensures-ok P m a h e = subst (Ensures P) e h

-- No panic
abbrev pub IsSafe {ℓ} : {A : Type ℓ} → Result A → Type 0
IsSafe (ok a) = Unit {0}
IsSafe (err e) = Unit {0}
IsSafe panic = ⊥

pub IsSafe->>= {ℓ κ} :
    {A : Type ℓ} {B : Type κ} (m : Result A) (f : A → Result B)
    → IsSafe m
    → ((a : A) → IsSafe (f a))
    → IsSafe (m >>= f)
IsSafe->>= (ok a) f h k = k a
IsSafe->>= (err e) f h k = tt
IsSafe->>= panic f h k = h
