-- ===== src/Space.antt =====
-- qy/core/symbol_space.py: symbol spaces and the lookup along the chain of their parents.
-- A dict of bindings is an association list whose first match counts, and a key that is written
-- again keeps its place. The chain of a space and its parents is a list, the innermost first; a
-- method that changes a space returns the changed one. The shared cache is left out.
pub mod SymbolDict
pub mod Resolve
pub mod Write
pub mod Fold
use text.Mathlib.Text.{◌==◌}
use SymbolDict.{Dict, get, has, insert, insert_all}
use qy.Prelude.{
  ℕ, zero, suc, ◌+◌, String, Bool, true, false, ◌||◌, Option, none, some, List, [], ◌∷◌, length,
  if◌then◌else◌,
}

-- What a symbol is bound to: a Python object of type `V`, or a `SymbolAlias` with its target.
pub data Binding (V : Type 0) : Type 0 where
  value : V → Binding V
  alias : String → Binding V

module _ (V : Type 0) where
  pub record Dynamic : Type 0 where
    pub membership : String → Bool
    pub resolver : String → Option (Binding V)

-- One space without its parent. `dynamic` is the pair of membership and resolver.
pub record Layer (V : Type 0) : Type 0 where
  pub bindings : Dict (Binding V)
  pub hidden : Dict (Binding V)
  pub name : String
  pub writable : Bool
  pub lazy : Bool
  pub dynamic : Option (Dynamic V)

abbrev pub Chain : Type 0 → Type 0
Chain V = List (Layer V)

-- How a lookup along the chain ends; `out_of_fuel` is a loop that goes on.
pub data Outcome (V : Type 0) : Type 0 where
  found : V → Outcome V
  missing out_of_fuel : Outcome V

-- `QyRuntimeError`s of the writing methods.
pub data Error : Type 0 where
  already_bound : String → Error
  no_export : String → Error

abbrev pub seen_has : String → List String → Bool
seen_has s [] = false
seen_has s (t ∷ seen) = t == s || seen_has s seen

module _ {V : Type 0} where
  -- The constructor: a membership without a resolver, or the other way round, is a ValueError.
  unfoldable pub make_space :
      Dict (Binding V)
      → String
      → Bool
      → Bool
      → Option (String → Bool)
      → Option (String → Option (Binding V))
      → Option (Layer V)
  make_space bindings name writable lazy none none = some (record {
    bindings = bindings;
    hidden = [];
    name = name;
    writable = writable;
    lazy = lazy;
    dynamic = none;
  })
  make_space bindings name writable lazy (some membership) (some resolver) = some (record {
    bindings = bindings;
    hidden = [];
    name = name;
    writable = writable;
    lazy = lazy;
    dynamic = some (record { membership = membership; resolver = resolver });
  })
  make_space bindings name writable lazy _ _ = none

  abbrev pub member : Option (Dynamic V) → String → Bool
  member none s = false
  member (some d) s = d.membership s

  unfoldable pub contains : Layer V → String → Bool
  unfolding has
  contains l s = (has s l.bindings || has s l.hidden) || member l.dynamic s

  abbrev pub resolver_value : Option (Dynamic V) → String → Option (Binding V)
  resolver_value none s = none
  resolver_value (some d) s = d.resolver s

  -- The lookup in one layer: the fixed bindings, then the hidden ones, then the resolver.
  unfoldable pub lookup : Layer V → String → Option (Binding V)
  lookup l s =
      if has s l.bindings
      then get s l.bindings
      else if has s l.hidden
      then get s l.hidden
      else resolver_value l.dynamic s

  unfoldable pub has_local_binding : Layer V → String → Bool
  has_local_binding l s = has s l.bindings || has s l.hidden

  -- The loop of `resolve`. Each turn spends one unit of fuel.
  unfoldable pub resolve_loop : ℕ → List String → Chain V → String → Outcome V
  resolve_loop zero seen c s = out_of_fuel
  resolve_loop (suc fuel) seen [] s = missing
  resolve_loop (suc fuel) seen (l ∷ ls) s = elim (seen_has s seen) [
    | true ↦ missing
    | false ↦ elim (lookup l s) [
      | none ↦ resolve_loop fuel seen ls s
      | some (alias t) ↦ resolve_loop fuel (s ∷ seen) (l ∷ ls) t
      | some (value v) ↦ found v
    ]
  ]

  unfoldable pub enough_fuel : Chain V → ℕ
  enough_fuel [] = 1
  enough_fuel (l ∷ ls) = suc (length l.bindings + length l.hidden + enough_fuel ls)

  unfoldable pub resolve : Chain V → String → Outcome V
  resolve c s = resolve_loop (enough_fuel c) [] c s

  unfoldable pub define : Layer V → String → Binding V → Layer V
  define l s b = record l { bindings = insert s b l.bindings }

  -- A write gives the error that it raises, if any, and the space that it leaves.
  unfoldable pub define_once : Layer V → String → Binding V → Option Error × Layer V
  define_once l s b =
      if has s l.bindings
      then (some (already_bound s), l)
      else (none, record l { bindings = insert s b l.bindings })

  unfoldable pub define_hidden : Layer V → String → Binding V → Layer V
  define_hidden l s b = record l { hidden = insert s b l.hidden }

  -- The loop over the names: what it bound before an error stays bound.
  unfoldable pub fold_from : Layer V → Dict (Binding V) → List String → Option Error × Layer V
  fold_from l source [] = (none, l)
  fold_from l source (s ∷ names) = elim (has s l.bindings) [
    | true ↦ (some (already_bound s), l)
    | false ↦ elim (get s source) [
      | none ↦ (some (no_export s), l)
      | some b ↦ fold_from (record l { bindings = insert s b l.bindings }) source names
    ]
  ]

  unfoldable pub child : Chain V → Layer V → Chain V
  child c l = l ∷ c

  -- The fixed bindings of the whole chain: an inner space overrides its parents.
  unfoldable pub all_bindings : Chain V → Dict (Binding V)
  all_bindings [] = []
  all_bindings (l ∷ []) = l.bindings
  all_bindings (l ∷ ls) = insert_all (all_bindings ls) l.bindings
