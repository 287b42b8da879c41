-- ===== src/Number.antt =====
-- qy/session/number_ops.py: the arithmetic of the number symbol space. The classes of numbers are
-- those of qy/sem/core.py.
pub mod Integer
pub mod Float
pub mod Dispatch
use qy.Prelude.{ℕ, Bool, ◌-◌, ◌&&◌, Option, none, some, ◌^◌, if◌then◌else◌}
use qy.Prelude.Int.{ℤ, pos, negsuc, leb_ℤ}

pub data IntegerType : Type 0 where
  int int8 int16 int32 int64 uint8 uint16 uint32 uint64 : IntegerType

pub data FloatType : Type 0 where
  float float16 float32 float128 : FloatType

-- Numbers without a kernel.
pub data OtherType : Type 0 where
  rational complex : OtherType

-- A class of numbers, or the type of another value, by a number for its name.
pub data TypeName : Type 0 where
  integer_type : IntegerType → TypeName
  float_type : FloatType → TypeName
  other_type : OtherType → TypeName
  no_number : ℕ → TypeName

-- What qy.sem.classify.value_type gives: `number` for every number, or the name of another type.
pub data Kind : Type 0 where
  number : Kind
  kind : ℕ → Kind

-- The names of the operators in the payloads of effects.
pub data Op : Type 0 where
  add sub mul div modulo remainder : Op

-- A Python float is of a type `F`. A host literal is a raw `int` or `float`; a Python Boolean, like
-- any other object that is no number, is a `thing` of a type.
pub data Value (F : Type 0) : Type 0 where
  integer : IntegerType → ℤ → Value F
  floating : FloatType → F → Value F
  other : OtherType → ℕ → Value F
  host_int : ℤ → Value F
  host_float : F → Value F
  thing : ℕ → Value F

-- What a call gives: a value, one of the effects with its payload, or a host exception.
pub data Outcome (F A : Type 0) : Type 0 where
  value : A → Outcome F A
  integer_overflow : IntegerType → Op → ℤ → ℤ × ℤ → Outcome F A
  float_overflow : FloatType → Op → F → Outcome F A
  divide_by_zero : Op → Bool → Outcome F A
  unsupported_operation : Op → TypeName → Kind → ℕ → Outcome F A
  type_error host_error : Outcome F A

infixl 5 ◌>>=◌
abbrev pub ◌>>=◌ : {F A B : Type 0} → Outcome F A → (A → Outcome F B) → Outcome F B
value a >>= f = f a
integer_overflow t op v b >>= f = integer_overflow t op v b
float_overflow t op v >>= f = float_overflow t op v
divide_by_zero op r >>= f = divide_by_zero op r
unsupported_operation op l r i >>= f = unsupported_operation op l r i
type_error >>= f = type_error
host_error >>= f = host_error

-- The bounds of `bits` bits, with a sign and without.
abbrev signed : ℕ → Option (ℤ × ℤ)
signed bits = some (negsuc (2 ^ (bits - 1) - 1), pos (2 ^ (bits - 1) - 1))

abbrev unsigned : ℕ → Option (ℤ × ℤ)
unsigned bits = some (pos 0, pos (2 ^ bits - 1))

-- _INTEGER_RANGES
unfoldable pub integer_range : IntegerType → Option (ℤ × ℤ)
integer_range int = none
integer_range int8 = signed 8
integer_range int16 = signed 16
integer_range int32 = signed 32
integer_range int64 = signed 64
integer_range uint8 = unsigned 8
integer_range uint16 = unsigned 16
integer_range uint32 = unsigned 32
integer_range uint64 = unsigned 64

abbrev pub within : ℤ → ℤ × ℤ → Bool
within v b = leb_ℤ b.0 v && leb_ℤ v b.1

abbrev pub check_bounds : {F : Type 0} → ℤ → IntegerType → Op → Option (ℤ × ℤ) → Outcome F ℤ
check_bounds v t op none = value v
check_bounds v t op (some b) = if within v b then value v else integer_overflow t op v b

unfoldable pub check_integer_range : {F : Type 0} → ℤ → IntegerType → Op → Outcome F ℤ
unfolding integer_range
check_integer_range v t op = check_bounds v t op (integer_range t)

-- The bounds in the classes, and the check of a class when a value is built.
unfoldable pub class_bounds : IntegerType → Option (ℤ × ℤ)
class_bounds int = none
class_bounds int8 = signed 8
class_bounds int16 = signed 16
class_bounds int32 = signed 32
class_bounds int64 = signed 64
class_bounds uint8 = unsigned 8
class_bounds uint16 = unsigned 16
class_bounds uint32 = unsigned 32
class_bounds uint64 = unsigned 64

abbrev pub require_range : {F : Type 0} → IntegerType → ℤ → Option (ℤ × ℤ) → Outcome F (Value F)
require_range t v none = value (integer t v)
require_range t v (some b) = if within v b then value (integer t v) else host_error

-- _make_integer: a value out of the bounds of its class is a ValueError.
unfoldable pub make_integer : {F : Type 0} → IntegerType → ℤ → Outcome F (Value F)
unfolding class_bounds
make_integer t v = require_range t v (class_bounds t)
