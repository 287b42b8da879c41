-- ===== src/Number/Dispatch/Range.antt =====
-- What the arithmetic gives is of the class of its arguments, and in the range of that class.
use qy.Prelude.{
  ◌+◌, ◌≤◌, ◌≡◌, ◌∙◌, refl, sym, ap, subst, inl, inr, Bool, true, false, Option, none, some, List,
  [], ◌∷◌, map, arith, Bool-cases, if◌then◌else◌,
}
use qy.Prelude.Int.{ℤ, pos_part, neg_part, is_zero}
use qy.Number
use qy.Number.{
  IntegerType, FloatType, OtherType, TypeName, integer_type, float_type, other_type, no_number, Op,
  add, sub, mul, div, modulo, remainder, Value, integer, floating, other, host_int, host_float,
  thing, Outcome, type_error, host_error, unsupported_operation, value, ◌>>=◌, integer_overflow,
  float_overflow, divide_by_zero, integer_range, check_bounds, check_integer_range, within,
  class_bounds, require_range, make_integer,
}
use qy.Number.Integer.{integer_kernel, div_all}
use qy.Number.Float.{FloatOps, float_kernel}
use qy.Number.Float.Finite.{>>=-value, IsChecked, kernel-IsChecked}
use qy.Number.Dispatch.Types.{AllOf, number_type-AllOf, type_of-coerce_host_number, value_inj}
use qy.Number.Dispatch.{
  coerce_host_number, type_of, ensure_same_number_type, integer_args, float_args, run_kernel,
  dispatch_op,
}

abbrev IsWithin : ℤ → Option (ℤ × ℤ) → Type 0
IsWithin v none = Unit
IsWithin v (some (low, high)) =
    (pos_part low + neg_part v ≤ pos_part v + neg_part low)
    × (pos_part v + neg_part high ≤ pos_part high + neg_part v)

-- The value is in the range of the class.
abbrev pub InRange : IntegerType → ℤ → Type 0
unfolding integer_range
InRange t v = IsWithin v (integer_range t)

module _ (F : Type 0) where
  -- An outcome whose integer, if it is one, is in the range of the class.
  abbrev IsSafe : IntegerType → Outcome F ℤ → Type 0
  IsSafe t (value n) = IsWithin n (integer_range t)
  IsSafe t _ = Unit

  bounds-IsSafe :
      (v : ℤ) (t : IntegerType) (op : Op) (o : Option (ℤ × ℤ))
      → integer_range t ≡ o
      → IsSafe t (check_bounds {F = F} v t op o)
  bounds-IsSafe v t op none e = rw e tt
  bounds-IsSafe v t op (some b) e = elim (Bool-cases (within v b)) [
    | inl w ↦ rw (w, e) (ground arith, ground arith)
    | inr w ↦ rw w tt
  ]

  check-IsSafe : (v : ℤ) (t : IntegerType) (op : Op) → IsSafe t (check_integer_range {F = F} v t op)
  unfolding check_integer_range
  check-IsSafe v t op = bounds-IsSafe v t op (integer_range t) refl

  if-IsSafe :
      (t : IntegerType) (b : Bool) (x y : Outcome F ℤ)
      → IsSafe t x
      → IsSafe t y
      → IsSafe t (if b then x else y)
  if-IsSafe t true x y h k = h
  if-IsSafe t false x y h k = k

  >>=-IsSafe :
      (t : IntegerType) (m : Outcome F ℤ) (f : ℤ → Outcome F ℤ)
      → ((q : ℤ) → IsSafe t (f q))
      → IsSafe t (m >>= f)
  >>=-IsSafe t (value q) f h = h q
  >>=-IsSafe t (integer_overflow _ _ _ _) f h = tt
  >>=-IsSafe t (float_overflow _ _ _) f h = tt
  >>=-IsSafe t (divide_by_zero _ _) f h = tt
  >>=-IsSafe t (unsupported_operation _ _ _ _) f h = tt
  >>=-IsSafe t type_error f h = tt
  >>=-IsSafe t host_error f h = tt

  kernel-IsSafe :
      (float_quotient : ℤ → ℤ → Option ℤ) (t : IntegerType) (op : Op) (args : List ℤ)
      → IsSafe t (integer_kernel {F = F} float_quotient t op args)
  unfolding integer_kernel
  kernel-IsSafe q t add args = check-IsSafe _ t add
  kernel-IsSafe q t sub [] = tt
  kernel-IsSafe q t sub (a ∷ []) = check-IsSafe _ t sub
  kernel-IsSafe q t sub (a ∷ b ∷ more) = check-IsSafe _ t sub
  kernel-IsSafe q t mul args = check-IsSafe _ t mul
  kernel-IsSafe q t div [] = tt
  kernel-IsSafe q t div (a ∷ []) = if-IsSafe t (is_zero a) _ _ tt (check-IsSafe _ t div)
  kernel-IsSafe q t div (a ∷ b ∷ more) =
      >>=-IsSafe t (div_all q t a (b ∷ more)) _ (λ n. check-IsSafe n t div)
  kernel-IsSafe q t modulo [] = tt
  kernel-IsSafe q t modulo (a ∷ []) = tt
  kernel-IsSafe q t modulo (a ∷ b ∷ []) = if-IsSafe t (is_zero b) _ _ tt (check-IsSafe _ t modulo)
  kernel-IsSafe q t modulo (a ∷ b ∷ c ∷ more) = tt
  kernel-IsSafe q t remainder [] = tt
  kernel-IsSafe q t remainder (a ∷ []) = tt
  kernel-IsSafe q t remainder (a ∷ b ∷ []) =
      if-IsSafe t (is_zero b) _ _ tt (check-IsSafe _ t remainder)
  kernel-IsSafe q t remainder (a ∷ b ∷ c ∷ more) = tt

class_bounds-integer_range : (t : IntegerType) → class_bounds t ≡ integer_range t
unfolding class_bounds integer_range
class_bounds-integer_range Number.int = refl
class_bounds-integer_range Number.int8 = refl
class_bounds-integer_range Number.int16 = refl
class_bounds-integer_range Number.int32 = refl
class_bounds-integer_range Number.int64 = refl
class_bounds-integer_range Number.uint8 = refl
class_bounds-integer_range Number.uint16 = refl
class_bounds-integer_range Number.uint32 = refl
class_bounds-integer_range Number.uint64 = refl

require_range-value :
    {F : Type 0} (t : IntegerType) (n : ℤ) (o : Option (ℤ × ℤ))
    → IsWithin n o
    → require_range {F = F} t n o ≡ value (integer t n)
require_range-value t n none h = refl
require_range-value t n (some b) h = ground arith

-- An integer is in the range of its class. A float is finite, or the negation of one argument.
abbrev pub IsInRange : {F : Type 0} → FloatOps F → Op → List (Value F) → Value F → Type 0
IsInRange ops op args (integer t n) = InRange t n
IsInRange ops op args (floating t x) = IsChecked ops op (float_args (map coerce_host_number args)) x
IsInRange ops op args _ = Unit

module _ {F : Type 0} (float_quotient : ℤ → ℤ → Option ℤ) (ops : FloatOps F) (op : Op) where
  kernel-InRange :
      (t : IntegerType) (args : List ℤ) (n : ℤ)
      → integer_kernel {F = F} float_quotient t op args ≡ value n
      → IsWithin n (integer_range t)
  kernel-InRange t args n e = subst (IsSafe F t) e (kernel-IsSafe F float_quotient t op args)

  -- What an integer kernel gives is always within the bounds that the class itself checks, so that
  -- the result can be built.
  pub integer_kernel-make_integer :
      (t : IntegerType) (args : List ℤ) (n : ℤ)
      → integer_kernel {F = F} float_quotient t op args ≡ value n
      → make_integer {F = F} t n ≡ value (integer t n)
  unfolding make_integer
  integer_kernel-make_integer t args n e =
      ap (λ (o : Option (ℤ × ℤ)). require_range t n o) (class_bounds-integer_range t)
      ∙ require_range-value t n (integer_range t) (kernel-InRange t args n e)

  run_kernel-IsInRange :
      (args : List (Value F)) (t : TypeName) (v : Value F)
      → run_kernel float_quotient ops op (map coerce_host_number args) t ≡ value v
      → (type_of v ≡ t) × IsInRange ops op args v
  unfolding run_kernel type_of
  run_kernel-IsInRange args (integer_type t) v h =
      let numbers = integer_args (map coerce_host_number args) in
      let kernel = integer_kernel float_quotient t op numbers in
      let (n, e, made) = >>=-value kernel (make_integer t) h in
      let ev = sym (integer_kernel-make_integer t numbers n e) ∙ made in
      subst (λ (x : Value F). (type_of x ≡ integer_type t) × IsInRange ops op args x)
        (value_inj (integer t n) ev) (refl, kernel-InRange t numbers n e)
  run_kernel-IsInRange args (float_type t) v h =
      let numbers = float_args (map coerce_host_number args) in
      let kernel = float_kernel ops t op numbers in
      let (x, e, ev) = >>=-value kernel (λ x. value (floating t x)) h in
      subst (λ (y : Value F). (type_of y ≡ float_type t) × IsInRange ops op args y)
        (value_inj (floating t x) ev) (refl, kernel-IsChecked ops t op numbers x e)
  run_kernel-IsInRange args (other_type t) v h = cc
  run_kernel-IsInRange args (no_number n) v h = cc

  -- A result of an operator is of the class of all its arguments, with no promotion. A result that
  -- is an integer is in the range of its class. One that is a float is finite, or the negation of
  -- the only argument; of no float class is the width checked.
  pub dispatch_op-IsInRange :
      (args : List (Value F)) (v : Value F)
      → dispatch_op float_quotient ops op args ≡ value v
      → AllOf (type_of v) args × IsInRange ops op args v
  unfolding dispatch_op
  dispatch_op-IsInRange [] v h = cc
  dispatch_op-IsInRange (a ∷ more) v h =
      let all = coerce_host_number a ∷ map coerce_host_number more in
      let (t, et, run) =
        >>=-value (ensure_same_number_type op all) (run_kernel float_quotient ops op all) h in
      let (same, others) = number_type-AllOf op (type_of (coerce_host_number a)) more t et in
      let (ev, good) = run_kernel-IsInRange (a ∷ more) t v run in
      let eh = sym (ev ∙ same) in
      (
        (sym (type_of-coerce_host_number a) ∙ eh, subst (λ (x : TypeName). AllOf x more) eh others),
        good,
      )
