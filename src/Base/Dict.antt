-- ===== src/Base/Dict.antt =====
-- Python's dict as a list of pairs in insertion order, over keys with a Boolean equality.
use mathlib.Core.Path.{◌≡◌, refl}
use mathlib.Core.Bool.{Bool, true, ◌&&◌}
use mathlib.Core.Logic.{◌↔◌, inl, inr}
use mathlib.Core.Option.{Option, none, some}
use mathlib.Core.List.{List, [], ◌∷◌}
use Prim.Native.String.{String}
use native.Mathlib.Omega.{arith}
use text.Mathlib.Text.{◌==◌ as str_eq}
use text.Mathlib.TextEquality.{eq_iff}
use decision_center.Base.Tests.{if◌then◌else◌, Bool-cases}

-- The equality that `==` and `hash` give a key type.
pub record Key {ℓ} (K : Type ℓ) : Type ℓ where
  pub same : K → K → Bool
  pub same_iff : (a b : K) → (same a b ≡ true) ↔ (a ≡ b)

pub same_refl {ℓ} : {K : Type ℓ} (k : Key K) (a : K) → k.same a a ≡ true
same_refl k a = (k.same_iff a a).1 refl

instance abbrev pub string_key : Key String
string_key = record { same = str_eq; same_iff = eq_iff }

abbrev pub pair_same {ℓ κ} :
    {A : Type ℓ} {B : Type κ} → (A → A → Bool) → (B → B → Bool) → A × B → A × B → Bool
pair_same f g (a, b) (c, d) = f a c && g b d

pub pair_same_iff {ℓ κ} :
    {A : Type ℓ} {B : Type κ} (ka : Key A) (kb : Key B) (p q : A × B)
    → (pair_same ka.same kb.same p q ≡ true) ↔ (p ≡ q)
pair_same_iff ka kb (a, b) (c, d) = (
  λ h. ground (arith, ka.same_iff a c, kb.same_iff b d),
  λ e. ground (arith, ka.same_iff a c, kb.same_iff b d),
)

abbrev pub pair_key {ℓ κ} : {A : Type ℓ} {B : Type κ} → Key A → Key B → Key (A × B)
pair_key ka kb = record { same = pair_same ka.same kb.same; same_iff = pair_same_iff ka kb }

abbrev pub Dict {ℓ κ} : Type ℓ → Type κ → Type (ℓ ⊔ κ)
Dict K V = List (K × V)

module _ {ℓ κ} {K : Type ℓ} {V : Type κ} ⦃k : Key K⦄ where
  -- d.get(key)
  unfoldable pub lookup : K → Dict K V → Option V
  lookup key [] = none
  lookup key ((j, v) ∷ m) = if k.same j key then some v else lookup key m

  -- d[key] = v: a present key keeps its place
  unfoldable pub insert : K → V → Dict K V → Dict K V
  insert key v [] = (key, v) ∷ []
  insert key v ((j, w) ∷ m) = if k.same j key then (j, v) ∷ m else (j, w) ∷ insert key v m

  pub lookup-insert :
      (key j : K) (v : V) (m : Dict K V)
      → lookup j (insert key v m) ≡ (if k.same key j then some v else lookup j m)
  unfolding lookup insert
  lookup-insert key j v [] = refl
  lookup-insert key j v ((i, w) ∷ m) =
      ground (arith, k.same_iff key j, k.same_iff i key, k.same_iff i j, lookup-insert key j v m)

  -- No key stands twice, as in every dict.
  unfoldable pub Unique : Dict K V → Type κ
  Unique [] = Unit
  Unique ((j, v) ∷ m) = (lookup j m ≡ none) × Unique m

  pub insert-twice :
      (key : K) (v w : V) (m : Dict K V) → insert key w (insert key v m) ≡ insert key w m
  unfolding insert
  insert-twice key v w [] = ground (arith, same_refl k key)
  insert-twice key v w ((j, u) ∷ m) = ground (arith, insert-twice key v w m)

  pub insert-Unique : (key : K) (v : V) (m : Dict K V) → Unique m → Unique (insert key v m)
  unfolding insert Unique lookup
  insert-Unique key v [] h = (refl, tt)
  insert-Unique key v ((j, w) ∷ m) h = elim (Bool-cases (k.same j key)) [
    | inl e ↦ rw e (h.0, h.1)
    | inr e ↦ rw e (
      ground (arith, lookup-insert key j v m, e, h.0, k.same_iff key j, k.same_iff j key),
      insert-Unique key v m h.1,
    )
  ]
