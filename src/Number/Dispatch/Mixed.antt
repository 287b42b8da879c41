-- ===== src/Number/Dispatch/Mixed.antt =====
-- Arguments of two classes.
use qy.Prelude.{
  ℕ, suc, ◌+◌, ◌≡◌, ◌≢◌, ◌∙◌, refl, ap, inl, inr, false, Option, List, [], ◌∷◌, ◌++◌, map, length,
  arith, Bool-cases,
}
use qy.Prelude.Int.{ℤ}
use qy.Number.{
  TypeName, integer_type, float_type, other_type, no_number, Op, Value, Outcome,
  unsupported_operation, ◌>>=◌,
}
use qy.Number.Float.{FloatOps}
use qy.Number.Dispatch.{
  same_type, coerce_host_number, type_of, value_type, check_types, number_type, run_kernel,
  dispatch_op,
}
use qy.Number.Dispatch.Types.{
  same_type-true, same_type_refl, AllOf, type_of-coerce_host_number, value_type-coerce_host_number,
}

abbrev pub IsNumber : TypeName → Type 0
IsNumber (no_number n) = ⊥
IsNumber _ = Unit

not-same_type : (s t : TypeName) → s ≢ t → same_type s t ≡ false
not-same_type s t n = elim (Bool-cases (same_type s t)) [
  | inl e ↦ absurd (n (same_type-true s t e))
  | inr e ↦ e
]

module _ {F : Type 0} where
  check_types-mixed :
      (op : Op) (head : TypeName) (index : ℕ) (alike : List (Value F)) (b : Value F)
      (more : List (Value F))
      → AllOf head alike
      → type_of b ≢ head
      → check_types op head index (map coerce_host_number (alike ++ (b ∷ more)))
        ≡ unsupported_operation op head (value_type b) (index + length alike)
  unfolding check_types
  check_types-mixed op head index [] b more all n =
      rw
        (
          type_of-coerce_host_number b,
          value_type-coerce_host_number b,
          not-same_type (type_of b) head n,
        )
        (ap (unsupported_operation op head (value_type b)) (omega arith))
  check_types-mixed op head index (a ∷ alike) b more all n =
      rw (type_of-coerce_host_number a, all.0, same_type_refl head)
        (check_types-mixed op head (suc index) alike b more all.1 n
          ∙ ap (unsupported_operation op head (value_type b)) (omega arith))

  number_type-check_types :
      (op : Op) (t : TypeName) (args : List (Value F))
      → IsNumber t
      → number_type op t args ≡ check_types op t 1 args
  number_type-check_types op (integer_type t) args h = refl
  number_type-check_types op (float_type t) args h = refl
  number_type-check_types op (other_type t) args h = refl
  number_type-check_types op (no_number n) args h = absurd h

  -- Where the head is a number, the first argument of another class than the head gives the effect
  -- unsupported-operation with the head's class, the argument's kind and its position, whatever
  -- follows it, and nothing is computed.
  pub dispatch_op-mixed :
      (float_quotient : ℤ → ℤ → Option ℤ) (ops : FloatOps F) (op : Op) (a : Value F)
      (alike : List (Value F)) (b : Value F) (more : List (Value F))
      → IsNumber (type_of a)
      → AllOf (type_of a) alike
      → type_of b ≢ type_of a
      → dispatch_op float_quotient ops op (a ∷ (alike ++ (b ∷ more)))
        ≡ unsupported_operation op (type_of a) (value_type b) (suc (length alike))
  unfolding dispatch_op
  dispatch_op-mixed float_quotient ops op a alike b more number all n =
      let args = map coerce_host_number (a ∷ (alike ++ (b ∷ more))) in
      ap (λ (m : Outcome F TypeName). m >>= run_kernel float_quotient ops op args)
        (ap (λ (t : TypeName). number_type op t (map coerce_host_number (alike ++ (b ∷ more))))
            (type_of-coerce_host_number a)
          ∙ number_type-check_types op (type_of a) (map coerce_host_number (alike ++ (b ∷ more)))
              number
          ∙ check_types-mixed op (type_of a) 1 alike b more all n
          ∙ ap (unsupported_operation op (type_of a) (value_type b)) (omega arith))
