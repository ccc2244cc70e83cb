-- ===== src/Base/Tests.antt =====
-- Boolean tests on numbers and texts, the conditional, and Python's exceptions.
use Prim.Native.Nat.{ℕ, compare, Ordering}
use Prim.Native.String.{String}
use mathlib.Core.Path.{◌≡◌, refl}
use mathlib.Core.Logic.{◌⊎◌, inl, inr}
use mathlib.Core.Bool.{Bool, true, false}
use mathlib.Core.Option.{Option, none, some}
use text.Mathlib.Text.{◌==◌ as str_eq}

abbrev pub ltb : ℕ → ℕ → Bool
ltb a b = elim (compare a b) [ Ordering.lt ↦ true | _ ↦ false ]

abbrev pub leb : ℕ → ℕ → Bool
leb a b = elim (compare a b) [ Ordering.gt ↦ false | _ ↦ true ]

infix 50 ◌==◌
abbrev pub ◌==◌ : ℕ → ℕ → Bool
a == b = elim (compare a b) [ Ordering.eq ↦ true | _ ↦ false ]

abbrev pub text_eq : String → String → Bool
text_eq = str_eq

infix 1 if◌then◌else◌
abbrev pub if◌then◌else◌ {ℓ} : {A : Type ℓ} → Bool → A → A → A
if true then x else y = x
if false then x else y = y

-- The number that a Boolean counts for.
abbrev pub bit : Bool → ℕ
bit true = 1
bit false = 0

abbrev pub is_some {ℓ} : {A : Type ℓ} → Option A → Bool
is_some none = false
is_some (some _) = true

pub Bool-cases : (b : Bool) → (b ≡ true) ⊎ (b ≡ false)
Bool-cases true = inl refl
Bool-cases false = inr refl

pub Option-cases {ℓ} : {A : Type ℓ} (o : Option A) → (o ≡ none) ⊎ ((a : A) × (o ≡ some a))
Option-cases none = inl refl
Option-cases (some a) = inr (a, refl)

-- The exception classes that the code raises or names in an `except` clause; `other` is any
-- other subclass of Exception.
pub data Exception : Type 0 where
  value_error validation_error attribute_error type_error key_error : Exception
  unroutable_error amqp_error psycopg_error runtime_error overflow_error other : Exception

-- What a call does: it returns, or it raises.
pub data Try {ℓ} (A : Type ℓ) : Type ℓ where
  ok : A → Try A
  raised : Exception → Try A

infixl 5 ◌>>=◌
abbrev pub ◌>>=◌ {ℓ κ} : {A : Type ℓ} {B : Type κ} → Try A → (A → Try B) → Try B
ok a >>= f = f a
raised e >>= f = raised e

pub Try-cases {ℓ} :
    {A : Type ℓ} (t : Try A) → ((a : A) × (t ≡ ok a)) ⊎ ((e : Exception) × (t ≡ raised e))
Try-cases (ok a) = inl (a, refl)
Try-cases (raised e) = inr (e, refl)
