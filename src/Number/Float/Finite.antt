-- ===== src/Number/Float/Finite.antt =====
-- qy/session/number_ops.py: what the float kernels check of their results.
use qy.Prelude.{
  ◌≡◌, refl, sym, subst, inl, inr, ◌⊎◌, true, Option, none, some, List, [], ◌∷◌, Bool-cases,
}
use qy.Prelude.Int.{ℤ}
use qy.Number.{
  FloatType, Op, add, sub, mul, div, modulo, remainder, Outcome, type_error, host_error,
  integer_overflow, unsupported_operation, divide_by_zero, float_overflow, value, ◌>>=◌,
}
use qy.Number.Float.{
  FloatOps, check_float_finite, over_all, less_multiple, float_kernel, float_add, float_sub,
  float_mul, float_div, float_mod, float_remainder,
}
use qy.Number.Dispatch.Types.{value_inj}

-- A chain that gives a value went through.
pub >>=-value :
    {F A B : Type 0} (m : Outcome F A) (f : A → Outcome F B) {b : B}
    → (m >>= f) ≡ value b
    → (a : A) × (m ≡ value a) × (f a ≡ value b)
>>=-value (value a) f h = (a, refl, h)
>>=-value (integer_overflow _ _ _ _) f h = cc
>>=-value (float_overflow _ _ _) f h = cc
>>=-value (divide_by_zero _ _) f h = cc
>>=-value (unsupported_operation _ _ _ _) f h = cc
>>=-value type_error f h = cc
>>=-value host_error f h = cc

module _ {F : Type 0} (ops : FloatOps F) where
  check-finite :
      (t : FloatType) (v x : F) (op : Op)
      → check_float_finite ops t v op ≡ value x
      → ops.finite x ≡ true
  unfolding check_float_finite
  check-finite t v x op h = elim (Bool-cases (ops.finite v)) [
    | inl e ↦ subst (λ (z : F). ops.finite z ≡ true) (value_inj v (rw e at h)) e
    | inr e ↦ let k = rw e at h in cc
  ]

  multiple-finite :
      (t : FloatType) (a b : F) (o : Option ℤ) (x : F)
      → less_multiple ops t a b o ≡ value x
      → ops.finite x ≡ true
  multiple-finite t a b none x h = cc
  multiple-finite t a b (some q) x h =
      elim (Bool-cases (ops.finite (ops.minus a (ops.times_int b q)))) [
        | inl e ↦ subst (λ (z : F). ops.finite z ≡ true) (value_inj _ (rw e at h)) e
        | inr e ↦ let k = rw e at h in cc
      ]

  -- A result is finite, unless it is the negation of one argument, which is not checked.
  abbrev pub IsChecked : Op → List F → F → Type 0
  IsChecked op args x =
      (ops.finite x ≡ true) ⊎ ((a : F) × (op ≡ sub) × (args ≡ a ∷ []) × (x ≡ ops.negate a))

  pub kernel-IsChecked :
      (t : FloatType) (op : Op) (args : List F) (x : F)
      → float_kernel ops t op args ≡ value x
      → IsChecked op args x
  unfolding float_kernel float_add float_sub float_mul float_div float_mod float_remainder
  kernel-IsChecked t add args x h = inl (check-finite t _ x add h)
  kernel-IsChecked t mul args x h = inl (check-finite t _ x mul h)
  kernel-IsChecked t sub [] x h = cc
  kernel-IsChecked t sub (a ∷ []) x h = inr (a, refl, refl, sym (value_inj _ h))
  kernel-IsChecked t sub (a ∷ b ∷ more) x h = inl (check-finite t _ x sub h)
  kernel-IsChecked t div [] x h = cc
  kernel-IsChecked t div (a ∷ []) x h = elim (Bool-cases (ops.equals_zero a)) [
    | inl e ↦ let k = rw e at h in cc
    | inr e ↦ inl (check-finite t _ x div (rw e at h))
  ]
  kernel-IsChecked t div (a ∷ b ∷ more) x h =
      let (q, e, k) = >>=-value (over_all ops t a (b ∷ more)) _ h in inl (check-finite t q x div k)
  kernel-IsChecked t modulo [] x h = cc
  kernel-IsChecked t modulo (a ∷ []) x h = cc
  kernel-IsChecked t modulo (a ∷ b ∷ c ∷ more) x h = cc
  kernel-IsChecked t modulo (a ∷ b ∷ []) x h = elim (Bool-cases (ops.equals_zero b)) [
    | inl e ↦ let k = rw e at h in cc
    | inr e ↦ inl (check-finite t _ x modulo (rw e at h))
  ]
  kernel-IsChecked t remainder [] x h = cc
  kernel-IsChecked t remainder (a ∷ []) x h = cc
  kernel-IsChecked t remainder (a ∷ b ∷ c ∷ more) x h = cc
  kernel-IsChecked t remainder (a ∷ b ∷ []) x h = elim (Bool-cases (ops.equals_zero b)) [
    | inl e ↦ let k = rw e at h in cc
    | inr e ↦ inl (multiple-finite t a b (ops.truncate (ops.over a b)) x (rw e at h))
  ]
