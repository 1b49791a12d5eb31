-- ===== src/Base/Fallible.antt =====
-- Python code that may raise: the value, or the exception that ends the call.
use mathlib.Core.Path.{◌≡◌, refl, ap}

-- `type_error` stands for the `TypeError`, `AttributeError` or validation error of a value of the
-- wrong shape.
pub data Raised : Type 0 where
  type_error : Raised

pub data Py {ℓ} (A : Type ℓ) : Type ℓ where
  ok : A → Py A
  raise : Raised → Py A

infixl 5 ◌>>=◌
abbrev pub ◌>>=◌ {ℓ κ} : {A : Type ℓ} {B : Type κ} → Py A → (A → Py B) → Py B
ok value >>= next = next value
raise what >>= next = raise what

-- A bind that gave a value had one to hand on.
pub >>=-eq-ok {ℓ κ} :
    {A : Type ℓ} {B : Type κ} (first : Py A) (next : A → Py B) {out : B}
    → (first >>= next) ≡ ok out
    → (value : A) × (first ≡ ok value) × (next value ≡ ok out)
>>=-eq-ok (ok value) next gave = (value, refl, gave)
>>=-eq-ok (raise what) next gave = cc

abbrev value_or {ℓ} : {A : Type ℓ} → A → Py A → A
value_or d (ok a) = a
value_or d (raise e) = d

pub ok-injective {ℓ} : {A : Type ℓ} {a b : A} → ok a ≡ ok b → a ≡ b
ok-injective {a} h = ap (value_or a) h
