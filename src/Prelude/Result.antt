-- ===== src/Prelude/Result.antt =====
-- The exceptions that the program raises, and the results of the functions that may raise one.
use mathlib.Core.Path.{◌≡◌, refl}
use mathlib.Core.Logic.{◌⊎◌, inl, inr}
use mathlib.Core.Option.{Option, none, some}
use mathlib.Core.Bool.{Bool, true, false}
use solprobe.Prelude.Tests.{if◌then◌else◌}

pub data Error : Type 0 where
  value_error key_error : Error
  runtime_error import_error index_error overflow_error struct_error : Error

pub data Result {ℓ} (A : Type ℓ) : Type ℓ where
  ok : A → Result A
  err : Error → Result A

pub ok-injective {ℓ} : {A : Type ℓ} {a b : A} → ok a ≡ ok b → a ≡ b
ok-injective h = cc

-- A chain of calls that may raise.
infixl 5 ◌>>=◌
abbrev pub ◌>>=◌ {ℓ κ} : {A : Type ℓ} {B : Type κ} → Result A → (A → Result B) → Result B
ok a >>= f = f a
err e >>= f = err e

-- what is there, or the exception
abbrev pub or_raise {ℓ} : {A : Type ℓ} → Error → Option A → Result A
or_raise e none = err e
or_raise e (some a) = ok a

abbrev pub require {ℓ} : {A : Type ℓ} → Bool → Error → Result A → Result A
require true e r = r
require false e r = err e

-- A property of the result, if none is raised.
abbrev pub OnOk {ℓ κ} : {A : Type ℓ} → (A → Type κ) → Result A → Type κ
OnOk P (ok a) = P a
OnOk P (err e) = Unit

pub OnOk->>= {ℓ κ μ} :
    {A : Type ℓ} {B : Type κ} (P : B → Type μ) (r : Result A) (f : A → Result B)
    → ((a : A) → OnOk P (f a))
    → OnOk P (r >>= f)
OnOk->>= P (ok a) f h = h a
OnOk->>= P (err e) f h = tt

pub OnOk-require {ℓ κ} :
    {A : Type ℓ} (P : A → Type κ) (b : Bool) (e : Error) (r : Result A)
    → OnOk P r
    → OnOk P (require b e r)
OnOk-require P true e r h = h
OnOk-require P false e r h = tt

-- The state after a call; an exception leaves it as it was.
abbrev pub kept {ℓ} : {A : Type ℓ} → A → Result A → A
kept a (ok a') = a'
kept a (err e) = a

pub kept_lem {ℓ κ} :
    {A : Type ℓ} (P : A → Type κ) (a : A) (r : Result A) → P a → OnOk P r → P (kept a r)
kept_lem P a (ok a') h k = k
kept_lem P a (err e) h k = h

pub Result-cases {ℓ} :
    {A : Type ℓ} (r : Result A) → ((a : A) × (r ≡ ok a)) ⊎ ((e : Error) × (r ≡ err e))
Result-cases (ok a) = inl (a, refl)
Result-cases (err e) = inr (e, refl)

pub OnOk-if {ℓ κ} :
    {A : Type ℓ} (P : A → Type κ) (b : Bool) (x y : Result A)
    → OnOk P x
    → OnOk P y
    → OnOk P (if b then x else y)
OnOk-if P true x y hx hy = hx
OnOk-if P false x y hx hy = hy
