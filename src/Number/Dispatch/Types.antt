-- ===== src/Number/Dispatch/Types.antt =====
-- The check of the classes accepts arguments of one class and no others.
use qy.Prelude.{
  ℕ, zero, suc, ◌≡◌, ◌∙◌, refl, sym, ap, inl, inr, true, List, [], ◌∷◌, map, Bool-cases, ◌==◌,
  ==_iff,
}
use qy.Number
use qy.Number.{
  IntegerType, FloatType, OtherType, TypeName, integer_type, float_type, other_type, no_number, Op,
  add, sub, mul, div, modulo, remainder, Value, integer, floating, other, host_int, host_float,
  thing, Outcome, type_error, host_error, unsupported_operation, value, ◌>>=◌, integer_overflow,
  float_overflow, divide_by_zero, integer_range, check_bounds, check_integer_range, within,
}
use qy.Number.Dispatch.{
  integer_index, float_index, other_index, same_type, coerce_host_number, type_of, value_type,
  check_types, number_type,
}

abbrev nth : {A : Type 0} → A → List A → ℕ → A
nth d [] n = d
nth d (a ∷ more) zero = a
nth d (a ∷ more) (suc n) = nth d more n

abbrev integer_of : ℕ → IntegerType
integer_of = nth Number.int (
    Number.int ∷ Number.int8 ∷ Number.int16 ∷ Number.int32 ∷ Number.int64 ∷ Number.uint8
    ∷ Number.uint16 ∷ Number.uint32 ∷ Number.uint64 ∷ [])

integer_of-integer_index : (t : IntegerType) → integer_of (integer_index t) ≡ t
integer_of-integer_index Number.int = refl
integer_of-integer_index Number.int8 = refl
integer_of-integer_index Number.int16 = refl
integer_of-integer_index Number.int32 = refl
integer_of-integer_index Number.int64 = refl
integer_of-integer_index Number.uint8 = refl
integer_of-integer_index Number.uint16 = refl
integer_of-integer_index Number.uint32 = refl
integer_of-integer_index Number.uint64 = refl

abbrev float_of : ℕ → FloatType
float_of = nth Number.float (Number.float ∷ Number.float16 ∷ Number.float32 ∷ Number.float128 ∷ [])

float_of-float_index : (t : FloatType) → float_of (float_index t) ≡ t
float_of-float_index Number.float = refl
float_of-float_index Number.float16 = refl
float_of-float_index Number.float32 = refl
float_of-float_index Number.float128 = refl

abbrev other_of : ℕ → OtherType
other_of = nth Number.rational (Number.rational ∷ Number.complex ∷ [])

other_of-other_index : (t : OtherType) → other_of (other_index t) ≡ t
other_of-other_index Number.rational = refl
other_of-other_index Number.complex = refl

-- A test on numbers for the values decides their equality.
by_index :
    {A : Type 0} (index : A → ℕ) (of : ℕ → A)
    → ((a : A) → of (index a) ≡ a)
    → (a b : A) → index a == index b ≡ true
    → a ≡ b
by_index index of inverse a b h =
    sym (inverse a) ∙ ap of ((==_iff (index a) (index b)).0 h) ∙ inverse b

pub same_type-true : (s t : TypeName) → same_type s t ≡ true → s ≡ t
unfolding same_type
same_type-true (integer_type s) (integer_type t) h =
    ap integer_type (by_index integer_index integer_of integer_of-integer_index s t h)
same_type-true (float_type s) (float_type t) h =
    ap float_type (by_index float_index float_of float_of-float_index s t h)
same_type-true (other_type s) (other_type t) h =
    ap other_type (by_index other_index other_of other_of-other_index s t h)
same_type-true (no_number m) (no_number n) h = ap no_number ((==_iff m n).0 h)
same_type-true (integer_type s) (float_type t) h = cc
same_type-true (integer_type s) (other_type t) h = cc
same_type-true (integer_type s) (no_number t) h = cc
same_type-true (float_type s) (integer_type t) h = cc
same_type-true (float_type s) (other_type t) h = cc
same_type-true (float_type s) (no_number t) h = cc
same_type-true (other_type s) (integer_type t) h = cc
same_type-true (other_type s) (float_type t) h = cc
same_type-true (other_type s) (no_number t) h = cc
same_type-true (no_number s) (integer_type t) h = cc
same_type-true (no_number s) (float_type t) h = cc
same_type-true (no_number s) (other_type t) h = cc

pub same_type_refl : (t : TypeName) → same_type t t ≡ true
unfolding same_type
same_type_refl (integer_type t) = (==_iff (integer_index t) (integer_index t)).1 refl
same_type_refl (float_type t) = (==_iff (float_index t) (float_index t)).1 refl
same_type_refl (other_type t) = (==_iff (other_index t) (other_index t)).1 refl
same_type_refl (no_number n) = (==_iff n n).1 refl

abbrev value_or : {F A : Type 0} → A → Outcome F A → A
value_or d (value a) = a
value_or d _ = d

pub value_inj : {F A : Type 0} (a : A) {b : A} → ◌≡◌ {A = Outcome F A} (value a) (value b) → a ≡ b
value_inj a h = ap (value_or a) h

module _ {F : Type 0} where
  -- Every argument is of the class.
  abbrev pub AllOf : TypeName → List (Value F) → Type 0
  AllOf t [] = Unit
  AllOf t (a ∷ more) = (type_of a ≡ t) × AllOf t more

  pub type_of-coerce_host_number : (a : Value F) → type_of (coerce_host_number a) ≡ type_of a
  unfolding coerce_host_number type_of
  type_of-coerce_host_number (integer t n) = refl
  type_of-coerce_host_number (floating t x) = refl
  type_of-coerce_host_number (other t n) = refl
  type_of-coerce_host_number (host_int n) = refl
  type_of-coerce_host_number (host_float x) = refl
  type_of-coerce_host_number (thing n) = refl

  pub value_type-coerce_host_number :
      (a : Value F) → value_type (coerce_host_number a) ≡ value_type a
  unfolding coerce_host_number value_type
  value_type-coerce_host_number (integer t n) = refl
  value_type-coerce_host_number (floating t x) = refl
  value_type-coerce_host_number (other t n) = refl
  value_type-coerce_host_number (host_int n) = refl
  value_type-coerce_host_number (host_float x) = refl
  value_type-coerce_host_number (thing n) = refl

  pub check_types-AllOf :
      (op : Op) (head : TypeName) (index : ℕ) (args : List (Value F)) (t : TypeName)
      → check_types op head index (map coerce_host_number args) ≡ value t
      → (t ≡ head) × AllOf head args
  unfolding check_types
  check_types-AllOf op head index [] t h = (sym (value_inj head h), tt)
  check_types-AllOf op head index (a ∷ more) t h =
      elim (Bool-cases (same_type (type_of (coerce_host_number a)) head)) [
        | inl e ↦
            let (et, all) = check_types-AllOf op head (suc index) more t (rw e at h) in
            (
              et,
              (
                sym (type_of-coerce_host_number a)
                    ∙ same_type-true (type_of (coerce_host_number a)) head e,
                all,
              ),
            )
        | inr e ↦ let g = rw e at h in absurd cc
      ]

  pub number_type-AllOf :
      (op : Op) (head : TypeName) (args : List (Value F)) (t : TypeName)
      → number_type op head (map coerce_host_number args) ≡ value t
      → (t ≡ head) × AllOf head args
  number_type-AllOf op (integer_type s) args t h = check_types-AllOf op (integer_type s) 1 args t h
  number_type-AllOf op (float_type s) args t h = check_types-AllOf op (float_type s) 1 args t h
  number_type-AllOf op (other_type s) args t h = check_types-AllOf op (other_type s) 1 args t h
  number_type-AllOf op (no_number n) args t h = cc
