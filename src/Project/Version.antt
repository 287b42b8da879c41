-- ===== src/Project/Version.antt =====
-- qy/project/resolve.py: _parse_version, compare_versions and max_version. A text is the list of the
-- codes of its characters; the digits are those of ASCII.
use qy.Prelude.{
  ℕ, ◌+◌, ◌-◌, ◌*◌, ◌≡◌, refl, Bool, true, false, ◌&&◌, List, [], ◌∷◌, map, ltb, leb, ◌==◌,
  if◌then◌else◌, arith, inl, inr, ◌⊎◌, Bool-cases,
}
use qy.Prelude.Int.{ℤ, pos, negsuc, leb_ℤ}

abbrev pub Text : Type 0
Text = List ℕ

abbrev pub is_digit : ℕ → Bool
is_digit c = leb 48 c && leb c 57

-- int of the digits that the segment starts with, 0 where there are none.
unfoldable pub leading_number : ℕ → Text → ℕ
leading_number n [] = n
leading_number n (c ∷ cs) =
    let rest = leading_number (n * 10 + (c - 48)) cs in if is_digit c then rest else n

abbrev pub push_char : ℕ → List Text → List Text
push_char c [] = (c ∷ []) ∷ []
push_char c (segment ∷ segments) = (c ∷ segment) ∷ segments

-- v.split(".")
unfoldable pub split_dots : Text → List Text
split_dots [] = [] ∷ []
split_dots (c ∷ cs) = let rest = split_dots cs in if c == 46 then [] ∷ rest else push_char c rest

-- _parse_version
unfoldable pub parse_version : Text → List ℕ
parse_version v = map (leading_number 0) (split_dots v)

-- The order of Python's tuples of integers.
abbrev pub tuple_lt : List ℕ → List ℕ → Bool
tuple_lt [] [] = false
tuple_lt [] (y ∷ ys) = true
tuple_lt (x ∷ xs) [] = false
tuple_lt (x ∷ xs) (y ∷ ys) = if ltb x y then true else if x == y then tuple_lt xs ys else false

unfoldable pub compare_versions : Text → Text → ℤ
compare_versions a b =
    if tuple_lt (parse_version a) (parse_version b)
    then negsuc 0
    else if tuple_lt (parse_version b) (parse_version a)
    then pos 1
    else pos 0

unfoldable pub max_version : Text → Text → Text
max_version a b = if leb_ℤ (pos 0) (compare_versions a b) then a else b

-- The version `v` meets the minimum `m`.
abbrev pub Meets : Text → Text → Type 0
Meets v m = tuple_lt (parse_version v) (parse_version m) ≡ false

lt_cotrans :
    (xs ys zs : List ℕ) → tuple_lt xs ys ≡ false → tuple_lt ys zs ≡ false → tuple_lt xs zs ≡ false
lt_cotrans [] [] zs h k = k
lt_cotrans [] (y ∷ ys) zs h k = cc
lt_cotrans (x ∷ xs) ys [] h k = refl
lt_cotrans (x ∷ xs) [] (z ∷ zs) h k = cc
lt_cotrans (x ∷ xs) (y ∷ ys) (z ∷ zs) h k = ground (arith, lt_cotrans xs ys zs)

lt_irrefl : (xs : List ℕ) → tuple_lt xs xs ≡ false
lt_irrefl [] = refl
lt_irrefl (x ∷ xs) = ground (arith, lt_irrefl xs)

lt_asym : (xs ys : List ℕ) → tuple_lt xs ys ≡ true → tuple_lt ys xs ≡ false
lt_asym [] [] h = cc
lt_asym [] (y ∷ ys) h = refl
lt_asym (x ∷ xs) [] h = cc
lt_asym (x ∷ xs) (y ∷ ys) h = ground (arith, lt_asym xs ys)

pub Meets-trans : (a b c : Text) → Meets a b → Meets b c → Meets a c
Meets-trans a b c h k = lt_cotrans (parse_version a) (parse_version b) (parse_version c) h k

pub Meets-refl : (a : Text) → Meets a a
Meets-refl a = lt_irrefl (parse_version a)

-- The larger version is one of the two, and meets both.
pub max_version-Meets :
    (a b : Text)
    → ((max_version a b ≡ a) ⊎ (max_version a b ≡ b))
      × Meets (max_version a b) a
      × Meets (max_version a b) b
unfolding max_version compare_versions
max_version-Meets a b = elim (Bool-cases (tuple_lt (parse_version a) (parse_version b))) [
  | inl e ↦ rw e (inr refl, lt_asym (parse_version a) (parse_version b) e, Meets-refl b)
  | inr e ↦ elim (Bool-cases (tuple_lt (parse_version b) (parse_version a))) [
    | inl f ↦ rw (e, f) (inl refl, Meets-refl a, e)
    | inr f ↦ rw (e, f) (inl refl, Meets-refl a, e)
  ]
]
