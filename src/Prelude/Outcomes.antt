-- ===== src/Prelude/Outcomes.antt =====
-- What a call of the runtime gives: a value, a `DispatchError`, or a panic, which aborts the block.

use mathlib.Core.Path.{◌≡◌, refl, sym}
use mathlib.Core.Logic.{◌⊎◌, inl, inr}
use mathlib.Core.Option.{Option, some}
use mathlib.Core.Bool.{Bool, true, false}

pub data Outcome {ℓ κ} (E : Type ℓ) (A : Type κ) : Type (ℓ ⊔ κ) where
  ok : A → Outcome E A
  err : E → Outcome E A
  panic : Outcome E A

-- `assert!(b)`
abbrev pub assert {ℓ} : {E : Type ℓ} → Bool → Outcome E (Unit {0})
assert false = panic
assert true = ok tt

-- `match r { Ok(a) => a, Err(error) => { log; d } }`: an error is logged and dropped, a panic is not.
abbrev pub or_logged {ℓ κ} : {E : Type ℓ} {A : Type κ} → Outcome E A → A → Outcome E A
or_logged panic d = panic
or_logged (ok a) d = ok a
or_logged (err e) d = ok d

-- `?`
infixl 5 ◌>>=◌
abbrev pub ◌>>=◌ {ℓ κ μ} :
    {E : Type ℓ} {A : Type κ} {B : Type μ} → Outcome E A → (A → Outcome E B) → Outcome E B
panic >>= rest = panic
err error >>= rest = err error
ok value >>= rest = rest value

-- `ensure!(b, error)`
abbrev pub ensure {ℓ} : {E : Type ℓ} → Bool → E → Outcome E (Unit {0})
ensure false error = err error
ensure true error = ok tt

infixl 5 ◌>>◌
abbrev pub ◌>>◌ {ℓ κ} : {E : Type ℓ} {B : Type κ} → Outcome E (Unit {0}) → Outcome E B → Outcome E B
check >> rest = check >>= λ done. rest

pub ok-injective {ℓ κ} :
    {E : Type ℓ} {A : Type κ} {a b : A} → ◌≡◌ {A = Outcome E A} (ok a) (ok b) → a ≡ b
ok-injective e = cc

pub some-injective {ℓ} : {A : Type ℓ} {a b : A} → ◌≡◌ {A = Option A} (some a) (some b) → a ≡ b
some-injective e = cc

-- Where a chain gives a value, its first step has given one and the rest goes on from there.
pub >>=_inverted {ℓ κ μ} :
    {E : Type ℓ} {A : Type κ} {B : Type μ} {b : B} (step : Outcome E A) (rest : A → Outcome E B)
    → ok b ≡ (step >>= rest)
    → (a : A) × (step ≡ ok a) × (rest a ≡ ok b)
>>=_inverted panic rest given = cc
>>=_inverted (err error) rest given = cc
>>=_inverted (ok value) rest given = (value, refl, sym given)

-- A value or a panic, but no error.
abbrev pub Infallible {ℓ κ} : {E : Type ℓ} {A : Type κ} → Outcome E A → Type (ℓ ⊔ κ)
Infallible {A} m = ((a : A) × (m ≡ ok a)) ⊎ (m ≡ panic)

pub Infallible-bind {ℓ κ μ} :
    {E : Type ℓ} {A : Type κ} {B : Type μ} (m : Outcome E A) (f : A → Outcome E B)
    → Infallible m
    → ((a : A) → Infallible (f a))
    → Infallible (m >>= f)
Infallible-bind m f (inl (a, e)) h = rw e (h a)
Infallible-bind m f (inr e) h = rw e (inr refl)
