-- ===== src/Base/Lists.antt =====
-- Lists over the native numbers and Boolean predicates, under the library's names where it has them.
use Prim.Native.Nat.{ℕ, suc, ◌+◌}
use Prim.Native.String.{String}
use mathlib.Core.Path.{◌≡◌, refl, subst}
use mathlib.Core.Bool.{Bool, true, false, ◌&&◌}
use mathlib.Core.List.{List, [], ◌∷◌, ◌++◌}
use native.Mathlib.Omega.{arith}
use text.Mathlib.Text.{◌==◌ as str_eq}
use decision_center.Base.Tests.{if◌then◌else◌, Bool-cases}
use text.Mathlib.TextEquality.{eq_iff}
use mathlib.Core.Logic.{inl, inr}

module _ {ℓ} {A : Type ℓ} where
  abbrev pub length : List A → ℕ
  length [] = 0
  length (x ∷ xs) = suc (length xs)

  -- A predicate that holds of every element.
  abbrev pub All {κ} : (A → Type κ) → List A → Type κ
  All P [] = Unit
  All P (x ∷ xs) = P x × All P xs

  pub length-append : (xs ys : List A) → length (xs ++ ys) ≡ length xs + length ys
  length-append [] ys = omega arith
  length-append (x ∷ xs) ys = omega (arith, length-append xs ys)

  pub All-append {κ} : (P : A → Type κ) (xs ys : List A) → All P xs → All P ys → All P (xs ++ ys)
  All-append P [] ys hx hy = hy
  All-append P (x ∷ xs) ys hx hy = (hx.0, All-append P xs ys hx.1 hy)

-- `[x for x in xs if test(x)]`
unfoldable pub filter_by {ℓ} : {A : Type ℓ} → (A → Bool) → List A → List A
filter_by test [] = []
filter_by test (x ∷ xs) = let rest = filter_by test xs in if test x then x ∷ rest else rest

unfoldable pub all_of {ℓ} : {A : Type ℓ} → (A → Bool) → List A → Bool
all_of test [] = true
all_of test (x ∷ xs) = let rest = all_of test xs in if test x then rest else false

unfoldable pub any_of {ℓ} : {A : Type ℓ} → (A → Bool) → List A → Bool
any_of test [] = false
any_of test (x ∷ xs) = let rest = any_of test xs in if test x then true else rest

-- `s in xs` for a list of texts
unfoldable pub contains : String → List String → Bool
contains s [] = false
contains s (x ∷ xs) = let rest = contains s xs in if str_eq x s then true else rest

abbrev pub is_empty {ℓ} : {A : Type ℓ} → List A → Bool
is_empty [] = true
is_empty (_ ∷ _) = false

-- `not text`
abbrev pub is_empty_text : String → Bool
is_empty_text text = str_eq text ""

-- Membership after a filter, and what a Boolean "all" says of each member.
pub contains-filter_by :
    (s : String) (test : String → Bool) (xs : List String)
    → contains s (filter_by test xs) ≡ (contains s xs && test s)
unfolding contains filter_by
contains-filter_by s test [] = refl
contains-filter_by s test (x ∷ xs) = elim (Bool-cases (str_eq x s)) [
  | inl e ↦ let same = (eq_iff x s).0 e in ground (arith, contains-filter_by s test xs, same, e)
  | inr e ↦ ground (arith, contains-filter_by s test xs, e)
]

pub all_of-contains :
    (s : String) (test : String → Bool) (xs : List String)
    → all_of test xs ≡ true
    → contains s xs ≡ true
    → test s ≡ true
unfolding contains all_of
all_of-contains s test [] h m = cc
all_of-contains s test (x ∷ xs) h m = elim (Bool-cases (str_eq x s)) [
  | inl e ↦ let same = (eq_iff x s).0 e in ground (arith, same, e, h)
  | inr e ↦ ground (arith, all_of-contains s test xs, e, h, m)
]

pub All-contains {κ} :
    (P : String → Type κ) (s : String) (xs : List String) → All P xs → contains s xs ≡ true → P s
unfolding contains
All-contains P s [] h m = cc
All-contains P s (x ∷ xs) h m = elim (Bool-cases (str_eq x s)) [
  | inl e ↦ subst P ((eq_iff x s).0 e) h.0
  | inr e ↦ All-contains P s xs h.1 (rw e at m)
]
