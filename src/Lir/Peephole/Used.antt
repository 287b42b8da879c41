-- ===== src/Lir/Peephole/Used.antt =====
-- qy/passes/lir/peephole.py: every integer that an instruction begins with is among the used ones.
use qy.Prelude.{◌≡◌, refl, true, Option, none, some, List, [], ◌∷◌, ◌++◌, arith}
use qy.Prelude.Int.{same_int_refl, ℤ, pos, negsuc}
use qy.Mir.Node.{as_int, Operand, int, boolean, bit, tuple, object, symbol, minus, nothing, other}
use qy.Lir.Node.{Instruction}
use qy.Lir.Peephole.{elem_int, maybe_int, operands_ints, used_registers}

elem-append_right : (z : ℤ) (xs ys : List ℤ) → elem_int z ys ≡ true → elem_int z (xs ++ ys) ≡ true
elem-append_right z [] ys h = h
elem-append_right z (x ∷ xs) ys h = ground (arith, elem-append_right z xs ys h)

-- The integer that an instruction begins with, if any, is used.
abbrev pub IsUsed : List ℤ → Option ℤ → Type 0
IsUsed used none = Unit
IsUsed used (some z) = elem_int z used ≡ true

abbrev pub StartUsed : List ℤ → List Operand → Type 0
StartUsed used [] = Unit
StartUsed used (o ∷ _) = IsUsed used (as_int o)

abbrev pub AllUsed : List ℤ → List Instruction → Type 0
AllUsed used [] = Unit
AllUsed used (i ∷ is) = StartUsed used i.operands × AllUsed used is

IsUsed-append : (m : Option ℤ) (xs ys : List ℤ) → IsUsed ys m → IsUsed (xs ++ ys) m
IsUsed-append none xs ys t = tt
IsUsed-append (some z) xs ys t = elem-append_right z xs ys t

AllUsed-append : (xs ys : List ℤ) (is : List Instruction) → AllUsed ys is → AllUsed (xs ++ ys) is
AllUsed-append xs ys [] t = tt
AllUsed-append xs ys (i ∷ is) (s, t) = (StartUsed-append i.operands s, AllUsed-append xs ys is t)
  where
    StartUsed-append : (ops : List Operand) → StartUsed ys ops → StartUsed (xs ++ ys) ops
    StartUsed-append [] s = tt
    StartUsed-append (o ∷ _) s = IsUsed-append (as_int o) xs ys s

maybe_int-IsUsed : (m : Option ℤ) (ys : List ℤ) → IsUsed (maybe_int m ++ ys) m
maybe_int-IsUsed none ys = tt
maybe_int-IsUsed (some z) ys = rw (same_int_refl z) refl

operands_ints-StartUsed :
    (ops : List Operand) (ys : List ℤ) → StartUsed (operands_ints ops ++ ys) ops
operands_ints-StartUsed [] ys = tt
operands_ints-StartUsed (int n ∷ ops) ys = maybe_int-IsUsed (some (pos n)) (operands_ints ops ++ ys)
operands_ints-StartUsed (boolean b ∷ ops) ys =
    maybe_int-IsUsed (some (pos (bit b))) (operands_ints ops ++ ys)
operands_ints-StartUsed (tuple t ∷ ops) ys = tt
operands_ints-StartUsed (object (symbol n) ∷ ops) ys = tt
operands_ints-StartUsed (object (minus n) ∷ ops) ys =
    maybe_int-IsUsed (some (negsuc n)) (operands_ints ops ++ ys)
operands_ints-StartUsed (object nothing ∷ ops) ys = tt
operands_ints-StartUsed (object (other n) ∷ ops) ys = tt

pub used_registers-AllUsed : (is : List Instruction) → AllUsed (used_registers is) is
unfolding used_registers
used_registers-AllUsed [] = tt
used_registers-AllUsed (i ∷ is) = (
  operands_ints-StartUsed i.operands (used_registers is),
  AllUsed-append (operands_ints i.operands) (used_registers is) is (used_registers-AllUsed is),
)
