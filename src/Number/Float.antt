-- ===== src/Number/Float.antt =====
-- qy/session/number_ops.py: the float kernels. The arithmetic of floats is Python's, and comes as
-- a record of operations.
pub mod Finite
use qy.Prelude.{Bool, true, false, Option, none, some, List, [], ◌∷◌, if◌then◌else◌}
use qy.Prelude.Int.{ℤ}
use qy.Number.{
  FloatType, Op, add, sub, mul, div, modulo, remainder, Outcome, type_error, host_error,
  divide_by_zero, float_overflow, value, ◌>>=◌,
}

-- `finite x` is `x == x and abs(x) != inf`, `truncate` is `int`, which raises for an infinity
-- and for a nan, and `times_int` multiplies by an integer.
pub record FloatOps (F : Type 0) : Type 0 where
  pub zero_float : F
  pub one_float : F
  pub plus : F → F → F
  pub minus : F → F → F
  pub times : F → F → F
  pub over : F → F → F
  pub modulo_float : F → F → F
  pub negate : F → F
  pub equals_zero : F → Bool
  pub finite : F → Bool
  pub truncate : F → Option ℤ
  pub times_int : F → ℤ → F

module _ {F : Type 0} (ops : FloatOps F) (t : FloatType) where
  unfoldable pub check_float_finite : F → Op → Outcome F F
  check_float_finite v op = if ops.finite v then value v else float_overflow t op v

  abbrev plus_all : F → List F → F
  plus_all total [] = total
  plus_all total (a ∷ more) = plus_all (ops.plus total a) more

  abbrev minus_all : F → List F → F
  minus_all total [] = total
  minus_all total (a ∷ more) = minus_all (ops.minus total a) more

  abbrev times_all : F → List F → F
  times_all total [] = total
  times_all total (a ∷ more) = times_all (ops.times total a) more

  unfoldable pub float_add : List F → Outcome F F
  unfolding check_float_finite
  float_add args = check_float_finite (plus_all ops.zero_float args) add

  -- A negation is not checked.
  unfoldable pub float_sub : List F → Outcome F F
  unfolding check_float_finite
  float_sub [] = host_error
  float_sub (a ∷ []) = value (ops.negate a)
  float_sub (a ∷ b ∷ more) = check_float_finite (minus_all a (b ∷ more)) sub

  unfoldable pub float_mul : List F → Outcome F F
  unfolding check_float_finite
  float_mul args = check_float_finite (times_all ops.one_float args) mul

  unfoldable pub over_all : F → List F → Outcome F F
  over_all total [] = value total
  over_all total (d ∷ ds) =
      let rest = over_all (ops.over total d) ds in
      if ops.equals_zero d then divide_by_zero div true else rest

  unfoldable pub float_div : List F → Outcome F F
  unfolding check_float_finite over_all
  float_div [] = host_error
  float_div (a ∷ []) =
      if ops.equals_zero a
      then divide_by_zero div true
      else check_float_finite (ops.over ops.one_float a) div
  float_div (a ∷ b ∷ more) = over_all a (b ∷ more) >>= λ q. check_float_finite q div

  unfoldable pub float_mod : List F → Outcome F F
  unfolding check_float_finite
  float_mod (a ∷ b ∷ []) =
      if ops.equals_zero b
      then divide_by_zero modulo false
      else check_float_finite (ops.modulo_float a b) modulo
  float_mod _ = type_error

  abbrev pub less_multiple : F → F → Option ℤ → Outcome F F
  less_multiple a b none = host_error
  less_multiple a b (some q) =
      if ops.finite (ops.minus a (ops.times_int b q))
      then value (ops.minus a (ops.times_int b q))
      else float_overflow t remainder (ops.minus a (ops.times_int b q))

  unfoldable pub float_remainder : List F → Outcome F F
  float_remainder (a ∷ b ∷ []) =
      if ops.equals_zero b
      then divide_by_zero remainder false
      else less_multiple a b (ops.truncate (ops.over a b))
  float_remainder _ = type_error

  unfoldable pub float_kernel : Op → List F → Outcome F F
  unfolding float_add float_sub float_mul float_div float_mod float_remainder
  float_kernel add = float_add
  float_kernel sub = float_sub
  float_kernel mul = float_mul
  float_kernel div = float_div
  float_kernel modulo = float_mod
  float_kernel remainder = float_remainder
