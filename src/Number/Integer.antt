-- ===== src/Number/Integer.antt =====
-- qy/session/number_ops.py: the integer kernels, on the payloads of arguments of one class.
pub mod Remainder
pub mod Sum
use qy.Prelude.{
  ℕ, Bool, true, false, not, ◌&&◌, ◌||◌, Option, none, some, List, [], ◌∷◌, ◌%◌, if◌then◌else◌,
}
use qy.Prelude.Int.{
  ℤ, pos, ◌+ℤ◌, ◌-ℤ◌, ◌*ℤ◌, is_negative, is_zero, abs, sub_ℕ, floor_div, floor_mod,
}
use qy.Number.{
  IntegerType, Op, add, sub, mul, div, modulo, remainder, Outcome, type_error, host_error,
  divide_by_zero, value, ◌>>=◌, check_integer_range,
}

-- The loops over the arguments, from a total.
abbrev pub add_all : ℤ → List ℤ → ℤ
add_all total [] = total
add_all total (a ∷ more) = add_all (total +ℤ a) more

abbrev pub sub_all : ℤ → List ℤ → ℤ
sub_all total [] = total
sub_all total (a ∷ more) = sub_all (total -ℤ a) more

abbrev pub mul_all : ℤ → List ℤ → ℤ
mul_all total [] = total
mul_all total (a ∷ more) = mul_all (total *ℤ a) more

abbrev pub differ : Bool → Bool → Bool
differ true b = not b
differ false b = b

-- The remainder with the sign of the dividend.
abbrev pub signed_remainder : ℤ → ℤ → ℤ
signed_remainder a b = if is_negative a then sub_ℕ 0 (abs a % abs b) else pos (abs a % abs b)

-- `float_quotient a b` is `int(a / b)` with Python's division of floats; `none` is an exception.
module _ {F : Type 0} (float_quotient : ℤ → ℤ → Option ℤ) (t : IntegerType) where
  unfoldable pub integer_add : List ℤ → Outcome F ℤ
  unfolding check_integer_range
  integer_add args = check_integer_range (add_all (pos 0) args) t add

  unfoldable pub integer_sub : List ℤ → Outcome F ℤ
  unfolding check_integer_range
  integer_sub [] = host_error
  integer_sub (a ∷ []) = check_integer_range (pos 0 -ℤ a) t sub
  integer_sub (a ∷ b ∷ more) = check_integer_range (sub_all a (b ∷ more)) t sub

  unfoldable pub integer_mul : List ℤ → Outcome F ℤ
  unfolding check_integer_range
  integer_mul args = check_integer_range (mul_all (pos 1) args) t mul

  abbrev of_quotient : Option ℤ → Outcome F ℤ
  of_quotient none = host_error
  of_quotient (some q) = value q

  -- One turn of the loop of a division.
  unfoldable pub divide : ℤ → ℤ → Outcome F ℤ
  divide total d =
      if is_zero d
      then divide_by_zero div true
      else if differ (is_negative total) (is_negative d) && not (is_zero (floor_mod total d))
      then of_quotient (float_quotient total d)
      else value (floor_div total d)

  unfoldable pub div_all : ℤ → List ℤ → Outcome F ℤ
  unfolding divide
  div_all total [] = value total
  div_all total (d ∷ ds) = divide total d >>= λ q. div_all q ds

  unfoldable pub integer_div : List ℤ → Outcome F ℤ
  unfolding check_integer_range div_all
  integer_div [] = host_error
  integer_div (a ∷ []) =
      if is_zero a then divide_by_zero div true else check_integer_range (floor_div (pos 1) a) t div
  integer_div (a ∷ b ∷ more) = div_all a (b ∷ more) >>= λ q. check_integer_range q t div

  unfoldable pub integer_mod : List ℤ → Outcome F ℤ
  unfolding check_integer_range
  integer_mod (a ∷ b ∷ []) =
      if is_zero b
      then divide_by_zero modulo false
      else check_integer_range (floor_mod a b) t modulo
  integer_mod _ = type_error

  unfoldable pub integer_remainder : List ℤ → Outcome F ℤ
  unfolding check_integer_range
  integer_remainder (a ∷ b ∷ []) =
      if is_zero b
      then divide_by_zero remainder false
      else check_integer_range (signed_remainder a b) t remainder
  integer_remainder _ = type_error

  -- The kernel of an operator.
  unfoldable pub integer_kernel : Op → List ℤ → Outcome F ℤ
  unfolding integer_add integer_sub integer_mul integer_div integer_mod integer_remainder
  integer_kernel add = integer_add
  integer_kernel sub = integer_sub
  integer_kernel mul = integer_mul
  integer_kernel div = integer_div
  integer_kernel modulo = integer_mod
  integer_kernel remainder = integer_remainder
