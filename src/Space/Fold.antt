-- ===== src/Space/Fold.antt =====
-- `SymbolSpace.fold_from`: the import of names from another space.
use text.Mathlib.TextEquality.{eq_iff}
use qy.Prelude.{
  ◌≡◌, ◌∙◌, refl, inl, inr, String, true, false, none, some, List, [], ◌∷◌, arith, Bool-cases,
  Option-cases, if◌then◌else◌,
}
use qy.Space.SymbolDict.{Dict, get, has, insert, get-insert, has-insert, get_of_has, get_of_not_has}
use qy.Space.{Binding, Layer, already_bound, no_export, fold_from, seen_has}

module _ {V : Type 0} where
  abbrev bound : Layer V → String → Binding V → Layer V
  bound l s b = record l { bindings = insert s b l.bindings }

  module _ (l : Layer V) (source : Dict (Binding V)) (s : String) (names : List String) where
    fold-bound :
        has s l.bindings ≡ true → fold_from l source (s ∷ names) ≡ (some (already_bound s), l)
    unfolding fold_from
    fold-bound e = rw (e, fold_from)

    fold-missing :
        has s l.bindings ≡ false
        → get s source ≡ none
        → fold_from l source (s ∷ names) ≡ (some (no_export s), l)
    unfolding fold_from
    fold-missing e g = rw (e, g, fold_from)

    fold-next :
        (b : Binding V)
        → has s l.bindings ≡ false
        → get s source ≡ some b
        → fold_from l source (s ∷ names) ≡ fold_from (bound l s b) source names
    unfolding fold_from
    fold-next b e g = rw (e, g, fold_from)

  -- A fold that raises no error binds each name as the source does, and leaves the fixed bindings
  -- of the other symbols alone.
  pub get-fold_from :
      (l : Layer V) (source : Dict (Binding V)) (names : List String) (t : String)
      → (fold_from l source names).0 ≡ none
      → get t (fold_from l source names).1.bindings
        ≡ (if seen_has t names then get t source else get t l.bindings)
  get-fold_from l source [] t h = unfold fold_from in refl
  get-fold_from l source (s ∷ names) t h = elim (Bool-cases (has s l.bindings)) [
    | inl e ↦ cc (fold-bound l source s names e)
    | inr e ↦ elim (Option-cases (get s source)) [
      | inl g ↦ cc (fold-missing l source s names e g)
      | inr (b, g) ↦
          let step = fold-next l source s names b e g in
          rw step (
            get-fold_from (bound l s b) source names t (rw step at h)
            ∙ ground (arith, get-insert s t b l.bindings, eq_iff s t, g))
    ]
  ]

  -- A fold never changes a fixed binding that is there, not even where it raises an error.
  pub fold_from-keeps :
      (l : Layer V) (source : Dict (Binding V)) (names : List String) (t : String) (c : Binding V)
      → get t l.bindings ≡ some c
      → get t (fold_from l source names).1.bindings ≡ some c
  fold_from-keeps l source [] t c h = unfold fold_from in h
  fold_from-keeps l source (s ∷ names) t c h = elim (Bool-cases (has s l.bindings)) [
    | inl e ↦ rw (fold-bound l source s names e) h
    | inr e ↦ elim (Option-cases (get s source)) [
      | inl g ↦ rw (fold-missing l source s names e g) h
      | inr (b, g) ↦ rw (fold-next l source s names b e g) (
          fold_from-keeps (bound l s b) source names t c
            (ground (arith, get-insert s t b l.bindings, eq_iff s t, get_of_not_has s l.bindings)))
    ]
  ]

  -- The names are distinct, none is bound in the layer, and the source has them all.
  abbrev pub IsImportable : Layer V → Dict (Binding V) → List String → Type 0
  IsImportable l source [] = Unit
  IsImportable l source (s ∷ names) =
      (has s l.bindings ≡ false)
      × (has s source ≡ true)
      × (seen_has s names ≡ false)
      × IsImportable l source names

  bound-IsImportable :
      (l : Layer V) (source : Dict (Binding V)) (s : String) (b : Binding V) (names : List String)
      → seen_has s names ≡ false
      → IsImportable l source names
      → IsImportable (bound l s b) source names
  bound-IsImportable l source s b [] n h = tt
  bound-IsImportable l source s b (t ∷ names) n h = (
    ground (arith, has-insert s t b l.bindings, eq_iff s t, eq_iff t s),
    h.1,
    h.2,
    bound-IsImportable l source s b names (ground arith) h.3,
  )

  fold_from-none :
      (l : Layer V) (source : Dict (Binding V)) (names : List String)
      → IsImportable l source names
      → (fold_from l source names).0 ≡ none
  fold_from-none l source [] h = unfold fold_from in refl
  fold_from-none l source (s ∷ names) h =
      let (b, g) = get_of_has s source h.1 in
      rw (fold-next l source s names b h.0 g)
        (fold_from-none (bound l s b) source names (bound-IsImportable l source s b names h.2 h.3))

  -- Distinct names that are free in the layer and present in the source are folded without an
  -- error, and then each of them has the binding that the source gives it, and every other symbol
  -- the fixed binding that it had.
  pub fold_from_lem :
      (l : Layer V) (source : Dict (Binding V)) (names : List String) (t : String)
      → IsImportable l source names
      → ((fold_from l source names).0 ≡ none)
        × (get t (fold_from l source names).1.bindings
            ≡ (if seen_has t names then get t source else get t l.bindings))
  fold_from_lem l source names t h =
      let e = fold_from-none l source names h in (e, get-fold_from l source names t e)
