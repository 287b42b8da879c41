-- ===== src/Prelude/Members.antt =====
-- Membership of numbers in lists: the test, and the relation by recursion that it decides.
use Prim.Native.Nat.{ℕ}
use mathlib.Core.Path.{◌≡◌, subst}
use mathlib.Core.Bool.{Bool, true, false, ◌||◌}
use mathlib.Core.Logic.{◌⊎◌, inl, inr}
use mathlib.Core.List.{List, [], ◌∷◌, ◌++◌}
use mathlib.Core.Option.{some}
use native.Mathlib.Omega.{arith}
use qy.Prelude.Tests.{◌==◌}

abbrev pub elem : ℕ → List ℕ → Bool
elem a [] = false
elem a (x ∷ xs) = a == x || elem a xs

abbrev pub In : {A : Type 0} → A → List A → Type 0
In a [] = ⊥
In a (x ∷ xs) = (a ≡ x) ⊎ In a xs

-- Every member of the one list is a member of the other.
abbrev pub Subset : {A : Type 0} → List A → List A → Type 0
Subset {A} xs ys = (a : A) → In a xs → In a ys

module _ {A : Type 0} where
  pub In-append_left : (a : A) (xs ys : List A) → In a xs → In a (xs ++ ys)
  In-append_left a [] ys h = absurd h
  In-append_left a (x ∷ xs) ys (inl e) = inl e
  In-append_left a (x ∷ xs) ys (inr h) = inr (In-append_left a xs ys h)

  pub In-append_right : (a : A) (xs ys : List A) → In a ys → In a (xs ++ ys)
  In-append_right a [] ys h = h
  In-append_right a (x ∷ xs) ys h = inr (In-append_right a xs ys h)

  pub In-append_cases : (a : A) (xs ys : List A) → In a (xs ++ ys) → In a xs ⊎ In a ys
  In-append_cases a [] ys h = inr h
  In-append_cases a (x ∷ xs) ys (inl e) = inl (inl e)
  In-append_cases a (x ∷ xs) ys (inr h) = elim (In-append_cases a xs ys h) [
    | inl k ↦ inl (inr k)
    | inr k ↦ inr k
  ]

pub elem→In : (a : ℕ) (xs : List ℕ) → elem a xs ≡ true → In a xs
elem→In a [] h = cc
elem→In a (x ∷ xs) h = ground (arith, elem→In a xs)

pub In→elem : (a : ℕ) (xs : List ℕ) → In a xs → elem a xs ≡ true
In→elem a [] h = absurd h
In→elem a (x ∷ xs) (inl e) = ground arith
In→elem a (x ∷ xs) (inr h) = ground (arith, In→elem a xs h)

pub some_inj {ℓ} : {A : Type ℓ} {a b : A} → some a ≡ some b → a ≡ b
some_inj h = cc

-- What an `ok` result with a known content holds.
pub In-some : {A : Type 0} (a : A) (xs ys : List A) → some xs ≡ some ys → In a xs → In a ys
In-some a xs ys e h = subst (In a) (some_inj e) h
