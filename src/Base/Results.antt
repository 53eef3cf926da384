-- ===== src/Base/Results.antt =====
-- What a Go call can do: return a value, return an `error`, or panic.
use Prim.Native.Nat.{ℕ}
use mathlib.Core.Path.{◌≡◌, refl}
use mathlib.Core.Bool.{Bool, true, false}
use mathlib.Core.Option.{Option, none, some}

-- The errors: those the code makes are named, those of the libraries carry a number.
pub data Error : Type 0 where
  bad_input bad_json bad_uuid bad_signature : Error
  database : ℕ → Error
  api : ℕ → Error

pub data Outcome {ℓ} (A : Type ℓ) : Type ℓ where
  ok : A → Outcome A
  err : Error → Outcome A
  panic : Outcome A

infixl 5 ◌>>=◌ ◌>>◌
abbrev pub ◌>>=◌ {ℓ κ} : {A : Type ℓ} {B : Type κ} → Outcome A → (A → Outcome B) → Outcome B
ok a >>= f = f a
err e >>= f = err e
panic >>= f = panic

abbrev pub ◌>>◌ {ℓ} : {B : Type ℓ} → Outcome (Unit {0}) → Outcome B → Outcome B
m >> k = m >>= λ _. k

-- `if bad { panic(…) }`.
abbrev pub panic_if : Bool → Outcome (Unit {0})
panic_if true = panic
panic_if false = ok tt

-- A library call that returns an error or a value.
abbrev pub of_option {ℓ} : {A : Type ℓ} → Error → Option A → Outcome A
of_option e none = err e
of_option e (some a) = ok a

-- A library call that fails where the library says so.
abbrev pub unless_fault {ℓ} : {A : Type ℓ} → Option Error → A → Outcome A
unless_fault none a = ok a
unless_fault (some e) a = err e

-- `if err != nil { panic(err) }`.
abbrev pub must {ℓ} : {A : Type ℓ} → Outcome A → Outcome A
must (ok a) = ok a
must (err e) = panic
must panic = panic

-- A sequence that succeeded: what its first part returned, and what was done with it.
pub >>=-eq-ok {ℓ κ} :
    {A : Type ℓ} {B : Type κ} (x : Outcome A) (k : A → Outcome B) {b : B}
    → (x >>= k) ≡ ok b
    → (a : A) × (x ≡ ok a) × (k a ≡ ok b)
>>=-eq-ok panic k h = cc
>>=-eq-ok (err e) k h = cc
>>=-eq-ok (ok a) k h = (a, refl, h)

pub must-eq-ok {ℓ} : {A : Type ℓ} (m : Outcome A) {a : A} → must m ≡ ok a → m ≡ ok a
must-eq-ok (ok a) h = h
must-eq-ok (err e) h = cc
must-eq-ok panic h = cc

pub ok_injective {ℓ} : {A : Type ℓ} {a b : A} → ok a ≡ ok b → a ≡ b
ok_injective h = cc
