-- ===== src/Number/Integer/Remainder.antt =====
-- The two remainders of a division: `mod` has the sign of the divisor, `remainder` that of the
-- dividend.
use qy.Prelude.{
  suc, ◌<◌, ◌≡◌, ◌∙◌, sym, ap, subst, inl, inr, false, not, ◌||◌, Option, none, some, [], ◌∷◌,
  arith, Bool-cases, if◌then◌else◌,
}
use qy.Prelude.Int.{ℤ, pos, negsuc, ◌+ℤ◌, is_negative, is_zero, abs, floor_mod}
use qy.Number.{
  IntegerType, Op, Outcome, value, integer_range, check_bounds, check_integer_range, within,
}
use native.Mathlib.Nat.{mod-lt}
use qy.Number.Integer.{differ, signed_remainder, integer_mod, integer_remainder}

-- The remainder with the sign of the divisor, from the one with the sign of the dividend.
abbrev pub toward_divisor : ℤ → ℤ → ℤ → ℤ
toward_divisor a b r =
    if is_zero r || not (differ (is_negative a) (is_negative b)) then r else r +ℤ b

floor_mod-signed_remainder :
    (a b : ℤ) → is_zero b ≡ false → floor_mod a b ≡ toward_divisor a b (signed_remainder a b)
unfolding floor_mod ◌+ℤ◌
floor_mod-signed_remainder (pos a) (pos b) h = ground arith
floor_mod-signed_remainder (negsuc a) (negsuc b) h = ground arith
floor_mod-signed_remainder (pos a) (negsuc b) h = ground arith
floor_mod-signed_remainder (negsuc a) (pos b) h = ground arith

abs-signed_remainder : (a b : ℤ) → is_zero b ≡ false → abs (signed_remainder a b) < abs b
abs-signed_remainder (pos a) (pos b) h =
    let m = mod-lt (abs (pos a)) {m = abs (pos b)} (ground arith) in ground arith
abs-signed_remainder (negsuc a) (negsuc b) h =
    let m = mod-lt (abs (negsuc a)) {m = abs (negsuc b)} (ground arith) in ground arith
abs-signed_remainder (pos a) (negsuc b) h =
    let m = mod-lt (abs (pos a)) {m = abs (negsuc b)} (ground arith) in ground arith
abs-signed_remainder (negsuc a) (pos b) h =
    let m = mod-lt (abs (negsuc a)) {m = abs (pos b)} (ground arith) in ground arith

abs-floor_mod : (a b : ℤ) → is_zero b ≡ false → abs (floor_mod a b) < abs b
unfolding floor_mod
abs-floor_mod (pos a) (pos b) h = let m = mod-lt a {m = b} (ground arith) in ground arith
abs-floor_mod (negsuc a) (negsuc b) h =
    let m = mod-lt (suc a) {m = suc b} (ground arith) in ground arith
abs-floor_mod (pos a) (negsuc b) h = let m = mod-lt a {m = suc b} (ground arith) in ground arith
abs-floor_mod (negsuc a) (pos b) h = let m = mod-lt (suc a) {m = b} (ground arith) in ground arith

module _ {F : Type 0} where
  abbrev value_or : ℤ → Outcome F ℤ → ℤ
  value_or d (value a) = a
  value_or d _ = d

  bounds-value :
      (v : ℤ) (t : IntegerType) (op : Op) (o : Option (ℤ × ℤ)) (w : ℤ)
      → check_bounds {F = F} v t op o ≡ value w
      → v ≡ w
  bounds-value v t op none w h = ap (value_or v) h
  bounds-value v t op (some b) w h = elim (Bool-cases (within v b)) [
    | inl e ↦ ap (value_or v) (rw e at h)
    | inr e ↦ let g = rw e at h in absurd cc
  ]

  -- Where both give a value, each is smaller than the divisor in magnitude, and `mod` is
  -- `remainder`, moved by one divisor where it is not zero and the signs of the two arguments
  -- differ.
  pub integer_mod-integer_remainder :
      (float_quotient : ℤ → ℤ → Option ℤ) (t : IntegerType) (a b m r : ℤ)
      → is_zero b ≡ false
      → integer_mod {F = F} float_quotient t (a ∷ b ∷ []) ≡ value m
      → integer_remainder {F = F} float_quotient t (a ∷ b ∷ []) ≡ value r
      → (abs m < abs b) × (abs r < abs b) × (m ≡ toward_divisor a b r)
  unfolding integer_mod integer_remainder check_integer_range
  integer_mod-integer_remainder float_quotient t a b m r nz hm hr =
      let em = bounds-value (floor_mod a b) t _ (integer_range t) m (rw nz at hm) in
      let er = bounds-value (signed_remainder a b) t _ (integer_range t) r (rw nz at hr) in
      (
        subst (λ (x : ℤ). abs x < abs b) em (abs-floor_mod a b nz),
        subst (λ (x : ℤ). abs x < abs b) er (abs-signed_remainder a b nz),
        sym em ∙ floor_mod-signed_remainder a b nz ∙ ap (λ (x : ℤ). toward_divisor a b x) er,
      )
