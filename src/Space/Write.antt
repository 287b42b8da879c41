-- ===== src/Space/Write.antt =====
-- The writing methods of a symbol space, and the view of all bindings of a chain.
use text.Mathlib.Text.{◌==◌}
use text.Mathlib.TextEquality.{eq_iff}
use qy.Prelude.{
  ◌≡◌, ◌∙◌, refl, inl, inr, String, Option, none, some, [], ◌∷◌, arith, Bool-cases, if◌then◌else◌,
}
use qy.Space.SymbolDict.{IsDict, get, has, get-insert, has-insert, get_of_not_has, get-insert_all}
use qy.Space.{Binding, Layer, Chain, lookup, define, define_once, define_hidden, all_bindings}

module _ {V : Type 0} where
  -- After `define` the symbol has the new binding, whatever bound it before, and every other
  -- symbol keeps what it had in the layer.
  pub lookup-define :
      (l : Layer V) (s t : String) (b : Binding V)
      → lookup (define l s b) t ≡ (if s == t then some b else lookup l t)
  unfolding lookup define
  lookup-define l s t b =
      ground (arith, get-insert s t b l.bindings, has-insert s t b l.bindings, eq_iff s t)

  -- A hidden binding is seen only where no fixed one hides it.
  pub lookup-define_hidden :
      (l : Layer V) (s t : String) (b : Binding V)
      → lookup (define_hidden l s b) t
        ≡ (if has t l.bindings then get t l.bindings else if s == t then some b else lookup l t)
  unfolding lookup define_hidden
  lookup-define_hidden l s t b =
      ground (arith, get-insert s t b l.hidden, has-insert s t b l.hidden, eq_iff s t)

  -- Bindings are written once: `define_once` never changes a fixed binding that is there, and
  -- where it raises no error the symbol has the new binding.
  pub define_once_lem :
      (l : Layer V) (s t : String) (b c : Binding V)
      → (get t l.bindings ≡ some c → get t (define_once l s b).1.bindings ≡ some c)
        × ((define_once l s b).0 ≡ none → lookup (define_once l s b).1 s ≡ some b)
  unfolding define_once lookup
  define_once_lem l s t b c = (
    λ h. ground (arith, get-insert s t b l.bindings, eq_iff s t, get_of_not_has s l.bindings),
    λ h. ground (arith, get-insert s s b l.bindings, has-insert s s b l.bindings, eq_iff s s),
  )

  -- The innermost layer of a chain that binds the symbol decides; the layers' dynamic and hidden
  -- bindings are left out.
  abbrev pub first_binding : Chain V → String → Option (Binding V)
  first_binding [] s = none
  first_binding (l ∷ ls) s = if has s l.bindings then get s l.bindings else first_binding ls s

  abbrev pub AllDicts : Chain V → Type 0
  AllDicts [] = Unit
  AllDicts (l ∷ ls) = IsDict l.bindings × AllDicts ls

  -- In a chain of dicts the merged view has, for each symbol, the binding of the innermost layer
  -- that binds it.
  pub get-all_bindings :
      (c : Chain V) (s : String) → AllDicts c → get s (all_bindings c) ≡ first_binding c s
  unfolding all_bindings
  get-all_bindings [] s h = unfold get in refl
  get-all_bindings (l ∷ []) s h = elim (Bool-cases (has s l.bindings)) [
    | inl e ↦ rw e
    | inr e ↦ rw e (get_of_not_has s l.bindings e)
  ]
  get-all_bindings (l ∷ k ∷ ls) s h =
      get-insert_all s (all_bindings (k ∷ ls)) l.bindings h.0 ∙ rw (get-all_bindings (k ∷ ls) s h.1)
