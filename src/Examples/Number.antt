-- ===== src/Examples/Number.antt =====
-- Runs of the arithmetic, and the theorems about it at concrete numbers. Floats are played by
-- integers here, and a division of floats by the truncated quotient.
use qy.Prelude.{◌/◌, ◌<◌, ◌≡◌, ◌≢◌, refl, true, Option, some, [], ◌∷◌, if◌then◌else◌}
use qy.Prelude.Int.{
  ℤ, pos, negsuc, ◌+ℤ◌, ◌-ℤ◌, ◌*ℤ◌, sub_ℕ, abs, is_zero, is_negative, floor_div, floor_mod,
}
use qy.Number
use qy.Number.{
  Value, integer, floating, host_int, integer_type, float_type, add, div, Outcome, value,
  integer_overflow, unsupported_operation, make_integer, check_integer_range,
}
use qy.Number.Integer.{
  differ, integer_kernel, integer_add, integer_sub, integer_div, integer_mod, integer_remainder,
}
use qy.Number.Integer.Remainder.{toward_divisor, integer_mod-integer_remainder}
use qy.Number.Integer.Sum.{sum, integer_add-integer_sub}
use qy.Number.Float.{FloatOps}
use qy.Number.Dispatch.{dispatch_op, type_of}
use qy.Number.Dispatch.Types.{AllOf}
use qy.Number.Dispatch.Range.{IsInRange, dispatch_op-IsInRange, integer_kernel-make_integer}
use qy.Number.Dispatch.Mixed.{IsNumber, dispatch_op-mixed}

abbrev quotient : ℤ → ℤ → Option ℤ
quotient a b = some (
    if differ (is_negative a) (is_negative b) then sub_ℕ 0 (abs a / abs b) else pos (abs a / abs b))

abbrev whole : FloatOps ℤ
whole = record {
  zero_float = pos 0;
  one_float = pos 1;
  plus = λ a b. a +ℤ b;
  minus = λ a b. a -ℤ b;
  times = λ a b. a *ℤ b;
  over = λ a b. floor_div a b;
  modulo_float = λ a b. floor_mod a b;
  negate = λ a. pos 0 -ℤ a;
  equals_zero = λ a. is_zero a;
  finite = λ a. true;
  truncate = λ a. some a;
  times_int = λ a n. a *ℤ n;
}

abbrev byte : ℤ → Value ℤ
byte n = integer Number.int8 n

abbrev word : ℤ → Value ℤ
word n = integer Number.int32 n

sum_fits :
    dispatch_op quotient whole add (byte (pos 100) ∷ byte (pos 27) ∷ []) ≡ value (byte (pos 127))
unfolding dispatch_op ◌+ℤ◌
sum_fits = refl

sum_overflows :
    dispatch_op quotient whole add (byte (pos 100) ∷ byte (pos 28) ∷ [])
    ≡ integer_overflow Number.int8 add (pos 128) (negsuc 127, pos 127)
unfolding dispatch_op ◌+ℤ◌
sum_overflows = refl

-- The reciprocal of -2 is rounded down, 1 divided by -2 towards zero.
reciprocal :
    (integer_div {F = ℤ} quotient Number.int (negsuc 1 ∷ []) ≡ value (negsuc 0))
    × (integer_div {F = ℤ} quotient Number.int (pos 1 ∷ negsuc 1 ∷ []) ≡ value (pos 0))
unfolding integer_div floor_div floor_mod
reciprocal = (refl, refl)

dispatch_op-IsInRange_example :
    AllOf (type_of (byte (pos 127))) (byte (pos 100) ∷ byte (pos 27) ∷ [])
    × IsInRange whole add (byte (pos 100) ∷ byte (pos 27) ∷ []) (byte (pos 127))
dispatch_op-IsInRange_example =
    dispatch_op-IsInRange quotient whole add (byte (pos 100) ∷ byte (pos 27) ∷ []) (byte (pos 127))
      sum_fits

word-IsNumber : IsNumber (type_of (word (pos 1)))
unfolding type_of
word-IsNumber = tt

other_class : type_of {F = ℤ} (host_int (pos 3)) ≢ type_of (word (pos 1))
unfolding type_of
other_class h = cc

dispatch_op-mixed_example :
    dispatch_op quotient whole add (word (pos 1) ∷ word (pos 2) ∷ host_int (pos 3) ∷ [])
    ≡ unsupported_operation add (integer_type Number.int32) Number.number 2
unfolding type_of qy.Number.Dispatch.value_type
dispatch_op-mixed_example =
    dispatch_op-mixed quotient whole add (word (pos 1)) (word (pos 2) ∷ []) (host_int (pos 3)) []
      word-IsNumber (refl, tt) other_class

byte_sum : integer_kernel {F = ℤ} quotient Number.int8 add (pos 100 ∷ pos 27 ∷ []) ≡ value (pos 127)
unfolding integer_kernel ◌+ℤ◌
byte_sum = refl

mod_value : integer_mod {F = ℤ} quotient Number.int (negsuc 6 ∷ pos 3 ∷ []) ≡ value (pos 2)
unfolding integer_mod floor_mod
mod_value = refl

remainder_value :
    integer_remainder {F = ℤ} quotient Number.int (negsuc 6 ∷ pos 3 ∷ []) ≡ value (negsuc 0)
unfolding integer_remainder
remainder_value = refl

integer_mod-integer_remainder_example :
    (2 < 3) × (1 < 3) × (pos 2 ≡ toward_divisor (negsuc 6) (pos 3) (negsuc 0))
integer_mod-integer_remainder_example =
    integer_mod-integer_remainder quotient Number.int (negsuc 6) (pos 3) (pos 2) (negsuc 0) refl
      mod_value remainder_value

integer_kernel-make_integer_example :
    make_integer {F = ℤ} Number.int8 (pos 127) ≡ value (byte (pos 127))
integer_kernel-make_integer_example =
    integer_kernel-make_integer quotient whole add Number.int8 (pos 100 ∷ pos 27 ∷ []) (pos 127)
      byte_sum

integer_add-integer_sub_example :
    (integer_add {F = ℤ} quotient Number.int8 (pos 5 ∷ negsuc 2 ∷ [])
      ≡ check_integer_range (sum (pos 5 ∷ negsuc 2 ∷ [])) Number.int8 add)
    × (integer_sub {F = ℤ} quotient Number.int8 (pos 9 ∷ pos 4 ∷ pos 5 ∷ negsuc 2 ∷ [])
        ≡ check_integer_range (pos 9 -ℤ sum (pos 4 ∷ pos 5 ∷ negsuc 2 ∷ [])) Number.int8 Number.sub)
    × (integer_sub {F = ℤ} quotient Number.int8 (pos 9 ∷ [])
        ≡ check_integer_range (pos 0 -ℤ pos 9) Number.int8 Number.sub)
integer_add-integer_sub_example =
    integer_add-integer_sub quotient Number.int8 (pos 9) (pos 5 ∷ negsuc 2 ∷ []) (pos 4)
