-- ===== src/Number/Dispatch.antt =====
-- qy/session/number_ops.py: the check of the classes of the arguments, the choice of a kernel, and
-- the operators + - * / mod remainder.
pub mod Types
pub mod Range
pub mod Mixed
use qy.Prelude.{
  ℕ, suc, Bool, true, false, Option, none, some, List, [], ◌∷◌, ◌==◌, map, if◌then◌else◌,
}
use qy.Prelude.Int.{ℤ}
use qy.Number.{
  IntegerType, FloatType, OtherType, TypeName, integer_type, float_type, other_type, no_number, Op,
  Value, integer, floating, other, host_int, host_float, thing, Kind, number, kind, make_integer,
  Outcome, type_error, host_error, unsupported_operation, value, ◌>>=◌,
}
use qy.Number
use qy.Number.Integer.{integer_kernel}
use qy.Number.Float.{FloatOps, float_kernel}

-- Numbers for the classes, to compare them.
abbrev pub integer_index : IntegerType → ℕ
integer_index Number.int = 0
integer_index Number.int8 = 1
integer_index Number.int16 = 2
integer_index Number.int32 = 3
integer_index Number.int64 = 4
integer_index Number.uint8 = 5
integer_index Number.uint16 = 6
integer_index Number.uint32 = 7
integer_index Number.uint64 = 8

abbrev pub float_index : FloatType → ℕ
float_index Number.float = 0
float_index Number.float16 = 1
float_index Number.float32 = 2
float_index Number.float128 = 3

abbrev pub other_index : OtherType → ℕ
other_index Number.rational = 0
other_index Number.complex = 1

-- type(a) is type(b)
unfoldable pub same_type : TypeName → TypeName → Bool
same_type (integer_type s) (integer_type t) = integer_index s == integer_index t
same_type (float_type s) (float_type t) = float_index s == float_index t
same_type (other_type s) (other_type t) = other_index s == other_index t
same_type (no_number m) (no_number n) = m == n
same_type _ _ = false

module _ {F : Type 0} where
  -- _coerce_host_number
  unfoldable pub coerce_host_number : Value F → Value F
  coerce_host_number (host_int n) = integer Number.int n
  coerce_host_number (host_float x) = floating Number.float x
  coerce_host_number v = v

  unfoldable pub value_type : Value F → Kind
  value_type (thing n) = kind n
  value_type _ = number

  -- type(v)
  unfoldable pub type_of : Value F → TypeName
  type_of (integer t n) = integer_type t
  type_of (floating t x) = float_type t
  type_of (other t n) = other_type t
  type_of (host_int n) = integer_type Number.int
  type_of (host_float x) = float_type Number.float
  type_of (thing n) = no_number n

  -- The loop over the other arguments, from an index.
  unfoldable pub check_types : Op → TypeName → ℕ → List (Value F) → Outcome F TypeName
  unfolding same_type type_of value_type
  check_types op head index [] = value head
  check_types op head index (a ∷ more) =
      let rest = check_types op head (suc index) more in
      if same_type (type_of a) head
      then rest
      else unsupported_operation op head (value_type a) index

  abbrev pub number_type : Op → TypeName → List (Value F) → Outcome F TypeName
  number_type op (no_number n) more = type_error
  number_type op t more = check_types op t 1 more

  unfoldable pub ensure_same_number_type : Op → List (Value F) → Outcome F TypeName
  unfolding check_types
  ensure_same_number_type op [] = type_error
  ensure_same_number_type op (a ∷ more) = number_type op (type_of a) more

  -- The payloads of the integers, and of the floats.
  unfoldable pub integer_args : List (Value F) → List ℤ
  integer_args [] = []
  integer_args (integer t n ∷ more) = n ∷ integer_args more
  integer_args (_ ∷ more) = integer_args more

  unfoldable pub float_args : List (Value F) → List F
  float_args [] = []
  float_args (floating t x ∷ more) = x ∷ float_args more
  float_args (_ ∷ more) = float_args more

  module _ (float_quotient : ℤ → ℤ → Option ℤ) (ops : FloatOps F) where
    unfoldable pub run_kernel : Op → List (Value F) → TypeName → Outcome F (Value F)
    unfolding make_integer integer_kernel float_kernel integer_args float_args
    run_kernel op args (integer_type t) =
        integer_kernel float_quotient t op (integer_args args) >>= make_integer t
    run_kernel op args (float_type t) =
        float_kernel ops t op (float_args args) >>= λ x. value (floating t x)
    run_kernel op args _ = type_error

    -- _dispatch_op, for the kernels of an operator.
    unfoldable pub dispatch_op : Op → List (Value F) → Outcome F (Value F)
    unfolding run_kernel ensure_same_number_type coerce_host_number
    dispatch_op op args =
        ensure_same_number_type op (map coerce_host_number args)
        >>= run_kernel op (map coerce_host_number args)
