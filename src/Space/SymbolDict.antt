-- ===== src/Space/SymbolDict.antt =====
-- A Python dict with symbols as keys, in the order of insertion.
use text.Mathlib.Text.{◌==◌}
use text.Mathlib.TextEquality.{eq_iff}
use qy.Prelude.{
  ◌≡◌, ◌∙◌, refl, String, Bool, true, false, ◌||◌, Option, none, some, List, [], ◌∷◌, arith, inl,
  inr, Bool-cases, if◌then◌else◌,
}

abbrev pub Dict : Type 0 → Type 0
Dict V = List (String × V)

module _ {V : Type 0} where
  -- d.get(k)
  unfoldable pub get : String → Dict V → Option V
  get k [] = none
  get k ((j, v) ∷ d) = if j == k then some v else get k d

  -- k in d
  unfoldable pub has : String → Dict V → Bool
  has k [] = false
  has k ((j, v) ∷ d) = j == k || has k d

  -- d[k] = v
  unfoldable pub insert : String → V → Dict V → Dict V
  insert k v [] = (k, v) ∷ []
  insert k v ((j, w) ∷ d) = if j == k then (k, v) ∷ d else (j, w) ∷ insert k v d

  -- d.update(e)
  unfoldable pub insert_all : Dict V → Dict V → Dict V
  insert_all d [] = d
  insert_all d ((k, v) ∷ e) = insert_all (insert k v d) e

  pub get-insert :
      (k j : String) (v : V) (d : Dict V)
      → get j (insert k v d) ≡ (if k == j then some v else get j d)
  unfolding get insert
  get-insert k j v [] = refl
  get-insert k j v ((i, w) ∷ d) =
      ground (arith, eq_iff k j, eq_iff i k, eq_iff i j, get-insert k j v d)

  pub has-insert : (k j : String) (v : V) (d : Dict V) → has j (insert k v d) ≡ (k == j || has j d)
  unfolding has insert
  has-insert k j v [] = refl
  has-insert k j v ((i, w) ∷ d) =
      ground (arith, eq_iff k j, eq_iff i k, eq_iff i j, has-insert k j v d)

  pub get_of_has : (k : String) (d : Dict V) → has k d ≡ true → (v : V) × (get k d ≡ some v)
  unfolding get has
  get_of_has k ((j, v) ∷ d) h = elim (Bool-cases (j == k)) [
    | inl e ↦ (v, rw e)
    | inr e ↦ let (w, g) = get_of_has k d (rw e at h) in (w, rw e g)
  ]
  get_of_has k [] h = cc

  pub get_of_not_has : (k : String) (d : Dict V) → has k d ≡ false → get k d ≡ none
  unfolding get has
  get_of_not_has k ((j, v) ∷ d) h = ground (arith, get_of_not_has k d)
  get_of_not_has k [] h = refl

  -- No key stands twice, as in every Python dict.
  abbrev pub IsDict : Dict V → Type 0
  IsDict [] = Unit
  IsDict ((k, v) ∷ d) = (has k d ≡ false) × IsDict d

  pub insert-IsDict : (k : String) (v : V) (d : Dict V) → IsDict d → IsDict (insert k v d)
  unfolding insert
  insert-IsDict k v [] h = (unfold has in refl, tt)
  insert-IsDict k v ((j, w) ∷ d) h = elim (Bool-cases (j == k)) [
    | inl e ↦ rw e (rw ((eq_iff j k).0 e) at h.0, h.1)
    | inr e ↦
        rw e (has-insert k j v d ∙ ground (arith, eq_iff k j, eq_iff j k), insert-IsDict k v d h.1)
  ]

  pub get-insert_all :
      (k : String) (d e : Dict V)
      → IsDict e
      → get k (insert_all d e) ≡ (if has k e then get k e else get k d)
  unfolding insert_all has
  get-insert_all k d [] h = refl
  get-insert_all k d ((j, v) ∷ e) h =
      get-insert_all k (insert j v d) e h.1
      ∙ (unfold get in ground (arith, get-insert j k v d, eq_iff j k))
