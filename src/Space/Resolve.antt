-- ===== src/Space/Resolve.antt =====
-- The lookup along the chain (`SymbolSpace.resolve`): it ends, and what it finds is right.
use text.Mathlib.Text.{◌==◌}
use text.Mathlib.TextEquality.{eq_iff}
use qy.Prelude.{
  ℕ, zero, suc, ◌+◌, ◌≤◌, ◌<◌, ◌≡◌, ◌≢◌, ◌⊎◌, refl, sym, ap, ◌∙◌, inl, inr, String, true, false,
  Option, none, some, List, [], ◌∷◌, ◌↔◌, arith, length, Bool-cases, if◌then◌else◌,
}
use qy.Space.SymbolDict.{Dict, has}
use qy.Space.{
  Outcome, Binding, value, alias, Layer, Chain, found, missing, out_of_fuel, resolver_value, lookup,
  seen_has, resolve_loop, enough_fuel, resolve,
}

not_below : (rank : String → ℕ) (x s : String) → rank s < rank x → x ≢ s
not_below rank x s p e = let q = ap rank e in omega (arith, q, p)

-- Every symbol that was left through an alias has a greater rank.
abbrev AllAbove : (String → ℕ) → ℕ → List String → Type 0
AllAbove rank n [] = Unit
AllAbove rank n (x ∷ seen) = (n < rank x) × AllAbove rank n seen

AllAbove-lower :
    (rank : String → ℕ) (m n : ℕ) (seen : List String)
    → m < n
    → AllAbove rank n seen
    → AllAbove rank m seen
AllAbove-lower rank m n [] h a = tt
AllAbove-lower rank m n (x ∷ seen) h (p, a) = (omega arith, AllAbove-lower rank m n seen h a)

above_unseen :
    (rank : String → ℕ) (s : String) (seen : List String)
    → AllAbove rank (rank s) seen
    → seen_has s seen ≡ false
above_unseen rank s [] a = refl
above_unseen rank s (x ∷ seen) (p, a) = elim (Bool-cases (x == s)) [
  | inl e ↦ absurd (not_below rank x s p ((eq_iff x s).0 e))
  | inr e ↦ rw e (above_unseen rank s seen a)
]

module _ {V : Type 0} where
  -- The entries whose key has not been seen.
  unseen : List String → Dict (Binding V) → ℕ
  unseen seen [] = 0
  unseen seen ((k, b) ∷ d) = if seen_has k seen then unseen seen d else suc (unseen seen d)

  unseen_mono :
      (s : String) (seen : List String) (d : Dict (Binding V)) → unseen (s ∷ seen) d ≤ unseen seen d
  unfolding unseen
  unseen_mono s seen [] = omega arith
  unseen_mono s seen ((k, b) ∷ d) = ground (arith, unseen_mono s seen d)

  unseen-lt :
      (s : String) (seen : List String) (d : Dict (Binding V))
      → has s d ≡ true
      → seen_has s seen ≡ false
      → unseen (s ∷ seen) d < unseen seen d
  unfolding unseen has
  unseen-lt s seen [] h n = cc
  unseen-lt s seen ((k, b) ∷ d) h n =
      ground (arith, unseen_mono s seen d, unseen-lt s seen d, eq_iff k s, eq_iff s k)

  unseen-le : (d : Dict (Binding V)) → unseen [] d ≤ length d
  unfolding unseen
  unseen-le [] = omega arith
  unseen-le ((k, b) ∷ d) = omega (arith, unseen-le d)

  -- What a lookup can still do: follow each alias once, and walk the spaces.
  measure : List String → Chain V → ℕ
  measure seen [] = 0
  measure seen (l ∷ ls) = suc (unseen seen l.bindings + unseen seen l.hidden + measure seen ls)

  measure_mono :
      (s : String) (seen : List String) (c : Chain V) → measure (s ∷ seen) c ≤ measure seen c
  unfolding measure
  measure_mono s seen [] = omega arith
  measure_mono s seen (l ∷ ls) =
      omega
        (arith, unseen_mono s seen l.bindings, unseen_mono s seen l.hidden, measure_mono s seen ls)

  measure-lt-enough_fuel : (c : Chain V) → measure [] c < enough_fuel c
  unfolding measure enough_fuel
  measure-lt-enough_fuel [] = omega arith
  measure-lt-enough_fuel (l ∷ ls) =
      omega (arith, unseen-le l.bindings, unseen-le l.hidden, measure-lt-enough_fuel ls)

  -- No resolver gives an alias, as those of the literal spaces never do.
  abbrev pub IsSettled : Chain V → Type 0
  IsSettled [] = Unit
  IsSettled (l ∷ ls) = ((s t : String) → resolver_value l.dynamic s ≢ some (alias t)) × IsSettled ls

  lookup-alias :
      (l : Layer V) (s t : String)
      → ((s t : String) → resolver_value l.dynamic s ≢ some (alias t))
      → lookup l s ≡ some (alias t)
      → (has s l.bindings ≡ true) ⊎ (has s l.hidden ≡ true)
  unfolding lookup
  lookup-alias l s t n e = ground (arith, n s t)

  alias_step :
      (l : Layer V) (ls : Chain V) (seen : List String) (s t : String)
      → ((s t : String) → resolver_value l.dynamic s ≢ some (alias t))
      → lookup l s ≡ some (alias t)
      → seen_has s seen ≡ false
      → measure (s ∷ seen) (l ∷ ls) < measure seen (l ∷ ls)
  unfolding measure
  alias_step l ls seen s t n e f = elim (lookup-alias l s t n e) [
    | inl h ↦ omega (
      arith,
      unseen-lt s seen l.bindings h f,
      unseen_mono s seen l.hidden,
      measure_mono s seen ls,
    )
    | inr h ↦ omega (
      arith,
      unseen_mono s seen l.bindings,
      unseen-lt s seen l.hidden h f,
      measure_mono s seen ls,
    )
  ]

  -- One turn of the loop, by what it meets.
  module _ (fuel : ℕ) (seen : List String) (l : Layer V) (ls : Chain V) (s : String) where
    loop-seen : seen_has s seen ≡ true → resolve_loop (suc fuel) seen (l ∷ ls) s ≡ missing
    unfolding resolve_loop
    loop-seen e = rw (e, resolve_loop)

    module _ (new : seen_has s seen ≡ false) where
      loop-none :
          lookup l s ≡ none → resolve_loop (suc fuel) seen (l ∷ ls) s ≡ resolve_loop fuel seen ls s
      unfolding resolve_loop
      loop-none p = rw (new, p, resolve_loop)

      loop-alias :
          (t : String)
          → lookup l s ≡ some (alias t)
          → resolve_loop (suc fuel) seen (l ∷ ls) s ≡ resolve_loop fuel (s ∷ seen) (l ∷ ls) t
      unfolding resolve_loop
      loop-alias t p = rw (new, p, resolve_loop)

      loop-value :
          (v : V) → lookup l s ≡ some (value v) → resolve_loop (suc fuel) seen (l ∷ ls) s ≡ found v
      unfolding resolve_loop
      loop-value v p = rw (new, p, resolve_loop)

  -- The ways a lookup in one layer can go.
  data Looked (o : Option (Binding V)) : Type 0 where
    nothing : o ≡ none → Looked o
    a_value : (v : V) → o ≡ some (value v) → Looked o
    an_alias : (t : String) → o ≡ some (alias t) → Looked o

  looked : (o : Option (Binding V)) → Looked o
  looked none = nothing refl
  looked (some (value v)) = a_value v refl
  looked (some (alias t)) = an_alias t refl

  loop_ends :
      (fuel : ℕ) (seen : List String) (c : Chain V) (s : String)
      → measure seen c < fuel
      → IsSettled c
      → resolve_loop fuel seen c s ≢ out_of_fuel
  loop_ends zero seen c s h n = absurd (omega arith)
  loop_ends (suc fuel) seen [] s h n = unfold resolve_loop in λ e. cc
  loop_ends (suc fuel) seen (l ∷ ls) s h n = elim (Bool-cases (seen_has s seen)) [
    | inl old ↦ rw (loop-seen fuel seen l ls s old) (λ k. cc)
    | inr new ↦ elim (looked (lookup l s)) [
      | nothing p ↦
          rw (loop-none fuel seen l ls s new p)
            (loop_ends fuel seen ls s (unfold measure in omega arith) n.1)
      | a_value v p ↦ rw (loop-value fuel seen l ls s new v p) (λ k. cc)
      | an_alias t p ↦ rw (loop-alias fuel seen l ls s new t p) (
          loop_ends fuel (s ∷ seen) (l ∷ ls) t (omega (arith, alias_step l ls seen s t n.0 p new))
            n)
    ]
  ]

  -- What a symbol stands for: the innermost layer that binds it decides, and an alias goes on
  -- with its target from the layer of the alias.
  pub data Resolves : Chain V → String → V → Type 0 where
    here :
        {l : Layer V} {ls : Chain V} {s : String} {v : V}
        → lookup l s ≡ some (value v)
        → Resolves (l ∷ ls) s v
    outward :
        {l : Layer V} {ls : Chain V} {s : String} {v : V}
        → lookup l s ≡ none
        → Resolves ls s v
        → Resolves (l ∷ ls) s v
    through :
        {l : Layer V} {ls : Chain V} {s : String} {v : V} (t : String)
        → lookup l s ≡ some (alias t)
        → Resolves (l ∷ ls) t v
        → Resolves (l ∷ ls) s v

  -- No alias is followed from a symbol from which one was followed before.
  abbrev pub IsFresh : {c : Chain V} {s : String} {v : V} → List String → Resolves c s v → Type 0
  IsFresh seen (here {s = s} p) = seen_has s seen ≡ false
  IsFresh seen (outward {s = s} p d) = (seen_has s seen ≡ false) × IsFresh seen d
  IsFresh seen (through {s = s} t p d) = (seen_has s seen ≡ false) × IsFresh (s ∷ seen) d

  loop_sound :
      (fuel : ℕ) (seen : List String) (c : Chain V) (s : String) (v : V)
      → resolve_loop fuel seen c s ≡ found v
      → (d : Resolves c s v) × IsFresh seen d
  loop_sound zero seen c s v e = unfold resolve_loop in cc
  loop_sound (suc fuel) seen [] s v e = unfold resolve_loop in cc
  loop_sound (suc fuel) seen (l ∷ ls) s v e = elim (Bool-cases (seen_has s seen)) [
    | inl old ↦ cc (loop-seen fuel seen l ls s old)
    | inr new ↦ elim (looked (lookup l s)) [
      | nothing p ↦
          let (d, f) = loop_sound fuel seen ls s v (sym (loop-none fuel seen l ls s new p) ∙ e) in
          (outward p d, (new, f))
      | a_value u p ↦ (here (p ∙ cc (loop-value fuel seen l ls s new u p)), new)
      | an_alias t p ↦
          let (d, f) =
            loop_sound fuel (s ∷ seen) (l ∷ ls) t v
              (sym (loop-alias fuel seen l ls s new t p) ∙ e) in
          (through t p d, (new, f))
    ]
  ]

  loop_complete :
      (fuel : ℕ) (seen : List String) {c : Chain V} {s : String} {v : V}
      → measure seen c < fuel
      → IsSettled c
      → (d : Resolves c s v) → IsFresh seen d
      → resolve_loop fuel seen c s ≡ found v
  loop_complete zero seen h n d f = absurd (omega arith)
  loop_complete (suc fuel) seen h n (here {l} {ls} {s} {v} p) f = loop-value fuel seen l ls s f v p
  loop_complete (suc fuel) seen h n (outward {l} {ls} {s} p d) f =
      loop-none fuel seen l ls s f.0 p
      ∙ loop_complete fuel seen (unfold measure in omega arith) n.1 d f.1
  loop_complete (suc fuel) seen h n (through {l} {ls} {s} t p d) f =
      loop-alias fuel seen l ls s f.0 t p
      ∙ loop_complete fuel (s ∷ seen) (omega (arith, alias_step l ls seen s t n.0 p f.0)) n d f.1

  -- The rank of the target of an alias is below that of the symbol, in every layer.
  abbrev pub Descends : (String → ℕ) → Chain V → Type 0
  Descends rank [] = Unit
  Descends rank (l ∷ ls) =
      ((s t : String) → lookup l s ≡ some (alias t) → rank t < rank s) × Descends rank ls

  -- Where aliases descend, no symbol is met twice.
  Descends-IsFresh :
      (rank : String → ℕ) (seen : List String) {c : Chain V} {s : String} {v : V}
      → Descends rank c
      → AllAbove rank (rank s) seen
      → (d : Resolves c s v) → IsFresh seen d
  Descends-IsFresh rank seen h a (here {s = s} p) = above_unseen rank s seen a
  Descends-IsFresh rank seen h a (outward {s = s} p d) =
      (above_unseen rank s seen a, Descends-IsFresh rank seen h.1 a d)
  Descends-IsFresh rank seen h a (through {s = s} t p d) =
      let below = h.0 s t p in
      (
        above_unseen rank s seen a,
        Descends-IsFresh rank (s ∷ seen) h
            (below, AllAbove-lower rank (rank t) (rank s) seen below a) d,
      )

  -- The lookup has ended, and a value is one that the symbol stands for.
  abbrev pub IsRight : Chain V → String → Outcome V → Type 0
  IsRight c s (found v) = Resolves c s v
  IsRight c s missing = Unit
  IsRight c s out_of_fuel = ⊥

  outcome-IsRight :
      (c : Chain V) (s : String) (o : Outcome V)
      → o ≢ out_of_fuel
      → ((v : V) → o ≡ found v → Resolves c s v)
      → IsRight c s o
  outcome-IsRight c s (found v) n h = h v refl
  outcome-IsRight c s missing n h = tt
  outcome-IsRight c s out_of_fuel n h = n refl

  -- If no resolver gives an alias, the lookup ends, whatever cycles the aliases make, and where it
  -- finds a value, the symbol stands for it: the innermost layer that binds the symbol decides, and
  -- an alias goes on with its target from the layer of the alias.
  pub resolve-IsRight : (c : Chain V) (s : String) → IsSettled c → IsRight c s (resolve c s)
  unfolding resolve
  resolve-IsRight c s n =
      outcome-IsRight c s (resolve c s)
        (loop_ends (enough_fuel c) [] c s (measure-lt-enough_fuel c) n)
        (λ v e. (loop_sound (enough_fuel c) [] c s v e).0)

  -- If no resolver gives an alias, and the aliases of all layers together make no cycle of names,
  -- in that some rank falls along each of them, the lookup finds a value exactly where the symbol
  -- stands for it: the innermost layer that binds the symbol decides, and an alias goes on with
  -- its target from the layer of the alias.
  pub resolve-Resolves :
      (c : Chain V) (s : String) (v : V) (rank : String → ℕ)
      → IsSettled c
      → Descends rank c
      → (resolve c s ≡ found v) ↔ Resolves c s v
  unfolding resolve
  resolve-Resolves c s v rank n h = (
    λ e. (loop_sound (enough_fuel c) [] c s v e).0,
    λ d.
        loop_complete (enough_fuel c) [] (measure-lt-enough_fuel c) n d
          (Descends-IsFresh rank [] h tt d),
  )

-- A layer with one binding.
abbrev pub only : {V : Type 0} → String → Binding V → Layer V
only s b = record {
  bindings = (s, b) ∷ [];
  hidden = [];
  name = "";
  writable = true;
  lazy = false;
  dynamic = none;
}
