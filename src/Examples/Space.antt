-- ===== src/Examples/Space.antt =====
-- Lookups and writes in a small chain of symbol spaces.
use text.Mathlib.Text.{◌==◌}
use text.Mathlib.TextEquality.{eq_iff}
use qy.Prelude.{
  Bool-cases, subst, inl, inr, ◌<◌, ℕ, ◌≡◌, ◌↔◌, refl, String, none, some, [], ◌∷◌, arith,
  if◌then◌else◌,
}
use qy.Space.SymbolDict.{Dict, get, has}
use qy.Space
use qy.Space.{
  contains, Binding, value, alias, Layer, Chain, found, missing, out_of_fuel, lookup, resolve,
  define_hidden, define, define_once, fold_from, all_bindings, seen_has,
}
use qy.Space.Resolve.{only, Resolves, Descends, resolve-Resolves, IsRight, resolve-IsRight}
use qy.Space.Write.{
  define_once_lem, lookup-define_hidden, get-all_bindings, first_binding, lookup-define,
}
use qy.Space.Fold.{fold_from_lem, fold_from-keeps}

-- f stands for g, which the outer space binds.
abbrev chain : Chain ℕ
chain = only "f" (alias "g") ∷ only "g" (value 7) ∷ []

follows : resolve chain "f" ≡ found 7
unfolding resolve Space.resolve_loop Space.enough_fuel lookup has get
follows = refl

-- Two aliases that stand for one another are unbound.
cycle : resolve {V = ℕ} (only "a" (alias "b") ∷ only "b" (alias "a") ∷ []) "a" ≡ missing
unfolding resolve Space.resolve_loop Space.enough_fuel lookup has get
cycle = refl

-- The names f and g, by the alias.
abbrev rank : String → ℕ
rank s = if s == "f" then 1 else 0

only-alias :
    (k u s t : String) → lookup {V = ℕ} (only k (alias u)) s ≡ some (alias t) → (k ≡ s) × (u ≡ t)
unfolding lookup has get
only-alias k u s t h = elim (Bool-cases (k == s)) [
  | inl e ↦ let g = rw e at h in ((eq_iff k s).0 e, cc)
  | inr e ↦ let g = rw e at h in cc
]

only-value : (k s t : String) (n : ℕ) → lookup {V = ℕ} (only k (value n)) s ≡ some (alias t) → ⊥
unfolding lookup has get
only-value k s t n h = elim (Bool-cases (k == s)) [
  | inl e ↦ let g = rw e at h in cc
  | inr e ↦ let g = rw e at h in cc
]

chain-Descends : Descends rank chain
chain-Descends = (
  λ s t h.
      let (p, q) = only-alias "f" "g" s t h in
      subst (λ (x : String). rank t < rank x) p
        (subst (λ (x : String). rank x < 1) q (omega arith)),
  (λ s t h. absurd (only-value "g" s t 7 h), tt),
)

resolve-Resolves_example : (resolve chain "f" ≡ found 7) ↔ Resolves chain "f" 7
resolve-Resolves_example =
    resolve-Resolves chain "f" 7 rank ((λ s t. cc), ((λ s t. cc), tt)) chain-Descends

resolve-IsRight_example : IsRight chain "f" (resolve chain "f")
resolve-IsRight_example = resolve-IsRight chain "f" ((λ s t. cc), ((λ s t. cc), tt))

abbrev inner : Layer ℕ
inner = only "x" (value 1)

lookup-define_example :
    lookup (define inner "y" (value 2)) "x"
    ≡ (if "y" == "x" then some (value 2) else lookup inner "x")
lookup-define_example = lookup-define inner "y" "x" (value 2)

lookup-define_hidden_example : lookup (define_hidden inner "x" (value 2)) "x" ≡ (
    if has "x" inner.bindings
    then get "x" inner.bindings
    else if "x" == "x"
    then some (value 2)
    else lookup inner "x")
lookup-define_hidden_example = lookup-define_hidden inner "x" "x" (value 2)

define_once_lem_example :
    (get "x" inner.bindings ≡ some (value 1)
      → get "x" (define_once inner "x" (value 2)).1.bindings ≡ some (value 1))
    × ((define_once inner "x" (value 2)).0 ≡ none
        → lookup (define_once inner "x" (value 2)).1 "x" ≡ some (value 2))
define_once_lem_example = define_once_lem inner "x" "x" (value 2) (value 1)

abbrev exports : Dict (Binding ℕ)
exports = ("p", value 3) ∷ ("q", value 4) ∷ []

fold_from_lem_example :
    ((fold_from inner exports ("q" ∷ [])).0 ≡ none)
    × (get "q" (fold_from inner exports ("q" ∷ [])).1.bindings
        ≡ (if seen_has "q" ("q" ∷ []) then get "q" exports else get "q" inner.bindings))
unfolding has
fold_from_lem_example = fold_from_lem inner exports ("q" ∷ []) "q" (refl, refl, refl, tt)

x_bound : get "x" inner.bindings ≡ some (value 1)
unfolding get
x_bound = refl

fold_from-keeps_example :
    get "x" (fold_from inner exports ("q" ∷ "r" ∷ [])).1.bindings ≡ some (value 1)
fold_from-keeps_example = fold_from-keeps inner exports ("q" ∷ "r" ∷ []) "x" (value 1) x_bound

get-all_bindings_example :
    get "x" (all_bindings (inner ∷ only "y" (value 2) ∷ []))
    ≡ first_binding (inner ∷ only "y" (value 2) ∷ []) "x"
unfolding has
get-all_bindings_example =
    get-all_bindings (inner ∷ only "y" (value 2) ∷ []) "x" ((refl, tt), ((refl, tt), tt))
