-- ===== src/Number/Integer/Sum.antt =====
-- What the sum and the difference of many arguments are.
use qy.Prelude.{◌≡◌, ◌∙◌, refl, ap, List, [], ◌∷◌, Option}
use qy.Prelude.Int.{ℤ, pos, ◌+ℤ◌, ◌-ℤ◌, int_laws}
use qy.Number.{IntegerType, add, sub, check_integer_range}
use qy.Number.Integer.{add_all, sub_all, integer_add, integer_sub}

-- The sum, from the right.
unfoldable pub sum : List ℤ → ℤ
sum [] = pos 0
sum (a ∷ more) = a +ℤ sum more

add_assoc : (a b c : ℤ) → a +ℤ b +ℤ c ≡ a +ℤ (b +ℤ c)
add_assoc a b c = omega int_laws

sub_sub : (a b c : ℤ) → a -ℤ b -ℤ c ≡ a -ℤ (b +ℤ c)
sub_sub a b c = omega int_laws

add_all-sum : (total : ℤ) (args : List ℤ) → add_all total args ≡ total +ℤ sum args
unfolding sum
add_all-sum total [] = omega int_laws
add_all-sum total (a ∷ more) = add_all-sum (total +ℤ a) more ∙ add_assoc total a (sum more)

sub_all-sum : (total : ℤ) (args : List ℤ) → sub_all total args ≡ total -ℤ sum args
unfolding sum
sub_all-sum total [] = omega int_laws
sub_all-sum total (a ∷ more) = sub_all-sum (total -ℤ a) more ∙ sub_sub total a (sum more)

zero_add : (a : ℤ) → pos 0 +ℤ a ≡ a
zero_add a = omega int_laws

-- Only the end result is checked against the range: + checks the sum of its arguments, and - of
-- two or more the first less the sum of the others, whatever a partial result was; - of one
-- checks its negation.
pub integer_add-integer_sub :
    {F : Type 0} (float_quotient : ℤ → ℤ → Option ℤ) (t : IntegerType) (a : ℤ) (args : List ℤ)
    (b : ℤ)
    → (integer_add {F = F} float_quotient t args ≡ check_integer_range (sum args) t add)
      × (integer_sub {F = F} float_quotient t (a ∷ b ∷ args)
          ≡ check_integer_range (a -ℤ sum (b ∷ args)) t sub)
      × (integer_sub {F = F} float_quotient t (a ∷ []) ≡ check_integer_range (pos 0 -ℤ a) t sub)
unfolding integer_add integer_sub
integer_add-integer_sub float_quotient t a args b = (
  ap (λ (n : ℤ). check_integer_range n t add) (add_all-sum (pos 0) args ∙ zero_add (sum args)),
  ap (λ (n : ℤ). check_integer_range n t sub) (sub_all-sum a (b ∷ args)),
  refl,
)
