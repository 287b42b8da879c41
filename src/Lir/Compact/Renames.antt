-- ===== src/Lir/Compact/Renames.antt =====
-- What compaction does with all registers at once: one renaming, which is injective and leaves no
-- number unused.
use qy.Prelude.{
  ℕ, suc, ◌+◌, ◌≤◌, ◌<◌, ◌≡◌, ◌∙◌, refl, sym, ap, subst, inl, inr, ◌⊎◌, Option, none, some, List,
  [], ◌∷◌, arith, length, Bool-cases, ◌==◌, ==_iff, if◌then◌else◌,
}
use qy.Prelude.Members.{some_inj}
use qy.Lir.Node.{Instruction}
use qy.Lir.Compact.{
  Plan, done, need, fail, Renaming, get, map_register, run, remap, identity, at_first,
  compact_registers, counted, max,
}

-- A call by call renaming by a table; a register outside the table is refused.
unfoldable pub rename : {A : Type 0} → (ℕ → Option ℕ) → Plan A → Option A
rename σ (done a) = some a
rename σ (need r k) = elim (σ r) [ none ↦ none | some m ↦ rename σ (k m) ]
rename σ fail = none

-- Numbers below the next one, no number twice, and every number used.
abbrev pub IsRenaming : Renaming → Type 0
IsRenaming s =
    ((r m : ℕ) → get r s.register_map ≡ some m → m < s.next_register)
    × ((q r m : ℕ) → get q s.register_map ≡ some m → get r s.register_map ≡ some m → q ≡ r)
    × ((m : ℕ) → m < s.next_register → (r : ℕ) × (get r s.register_map ≡ some m))

abbrev pub Extends : Renaming → Renaming → Type 0
Extends s s' = (r m : ℕ) → get r s.register_map ≡ some m → get r s'.register_map ≡ some m

get-cons :
    (q m r : ℕ) (d : List (ℕ × ℕ)) → get r ((q, m) ∷ d) ≡ (if q == r then some m else get r d)
unfolding get
get-cons q m r d = refl

-- A register without a number is given the next one.
module _ (r : ℕ) (s : Renaming) (new : get r s.register_map ≡ none) where
  abbrev grown : Renaming
  grown = record {
    register_map = (r, s.next_register) ∷ s.register_map;
    next_register = s.next_register + 1;
  }

  grown_self : get r grown.register_map ≡ some s.next_register
  grown_self = ground (arith, get-cons r s.next_register r s.register_map)

  grown-Extends : Extends s grown
  grown-Extends q m h = ground (arith, get-cons r s.next_register q s.register_map)

  grown_cases :
      (q m : ℕ)
      → get q grown.register_map ≡ some m
      → ((q ≡ r) × (m ≡ s.next_register)) ⊎ (get q s.register_map ≡ some m)
  grown_cases q m h = elim (Bool-cases (r == q)) [
    | inl e ↦ inl (
      sym ((==_iff r q).0 e),
      sym (some_inj (rw e at (sym (get-cons r s.next_register q s.register_map) ∙ h))),
    )
    | inr e ↦ inr (rw e at (sym (get-cons r s.next_register q s.register_map) ∙ h))
  ]

  grown-IsRenaming : IsRenaming s → IsRenaming grown
  grown-IsRenaming (bounded, injective, dense) = (
    λ q m h. elim (grown_cases q m h) [
      | inl (_, e) ↦ omega arith
      | inr g ↦ let b = bounded q m g in omega arith
    ],
    λ p q m h k. elim (grown_cases p m h) [
      | inl (e, em) ↦ elim (grown_cases q m k) [
        | inl (e', _) ↦ e ∙ sym e'
        | inr g ↦ let b = bounded q m g in absurd (omega arith)
      ]
      | inr g ↦ elim (grown_cases q m k) [
        | inl (e', em) ↦ let b = bounded p m g in absurd (omega arith)
        | inr g' ↦ injective p q m g g'
      ]
    ],
    λ m h. elim (Bool-cases (m == s.next_register)) [
      | inl e ↦ (r, grown_self ∙ ap (λ (x : ℕ). some x) (sym ((==_iff m s.next_register).0 e)))
      | inr e ↦ let (q, g) = dense m (ground arith) in (q, grown-Extends q m g)
    ],
  )

map_register_lem :
    (r : ℕ) (s : Renaming)
    → IsRenaming s
    → IsRenaming (map_register r s).1
      × Extends s (map_register r s).1
      × (get r (map_register r s).1.register_map ≡ some (map_register r s).0)
unfolding map_register
map_register_lem r s h = by_cases (get r s.register_map) refl
  where
    by_cases :
        (o : Option ℕ)
        → get r s.register_map ≡ o
        → IsRenaming (map_register r s).1
          × Extends s (map_register r s).1
          × (get r (map_register r s).1.register_map ≡ some (map_register r s).0)
    by_cases none e = rw e (grown-IsRenaming r s e h, grown-Extends r s e, grown_self r s e)
    by_cases (some m) e = rw e (h, (λ q n g. g), e)

-- Running a plan only adds registers, and the table that it ends with renames the plan at once.
run-rename :
    {A : Type 0} (p : Plan A) (s : Renaming) {a : A} {s' : Renaming}
    → IsRenaming s
    → run p s ≡ some (a, s')
    → IsRenaming s'
      × Extends s s'
      × ((σ : ℕ → Option ℕ)
          → ((r m : ℕ) → get r s'.register_map ≡ some m → σ r ≡ some m)
          → rename σ p ≡ some a)
unfolding run rename
run-rename (done b) s h e =
    let same = some_inj e in
    let ea = ap (λ x. x.0) same in
    let es = ap (λ x. x.1) same in
    (subst IsRenaming es h, subst (Extends s) es (λ r m g. g), λ σ k. ap (λ x. some x) ea)
run-rename (need r k) s {a} {s'} h e =
    let (h', more, mine) = map_register_lem r s h in
    let (h'', more', all) = run-rename (k (map_register r s).0) (map_register r s).1 h' e in
    (
      h'',
      (λ q m g. more' q m (more q m g)),
      λ σ agree.
          rw (agree r (map_register r s).0 (more' r (map_register r s).0 mine), rename)
            (all σ agree),
    )
run-rename fail s h e = cc

get-identity :
    (i : ℕ) (params : List ℕ) (r m : ℕ)
    → get r (identity i params) ≡ some m
    → (m ≡ r) × (i ≤ r) × (r < i + length params)
unfolding identity
get-identity i [] r m h = unfold get in cc
get-identity i (p ∷ params) r m h = elim (Bool-cases (i == r)) [
  | inl e ↦
      let here = rw e at (get-cons i i r (identity (suc i) params)) in
      let same = some_inj (sym here ∙ h) in
      let er = (==_iff i r).0 e in (sym same ∙ er, omega arith, omega arith)
  | inr e ↦
      let here = rw e at (get-cons i i r (identity (suc i) params)) in
      let g = get-identity (suc i) params r m (sym here ∙ h) in (g.0, omega arith, omega arith)
]

identity-get :
    (i : ℕ) (params : List ℕ) (r : ℕ)
    → i ≤ r
    → r < i + length params
    → get r (identity i params) ≡ some r
unfolding identity
identity-get i [] r h k = absurd (omega arith)
identity-get i (p ∷ params) r h k = elim (Bool-cases (i == r)) [
  | inl e ↦
      (rw e at (get-cons i i r (identity (suc i) params)))
      ∙ ap (λ (x : ℕ). some x) ((==_iff i r).0 e)
  | inr e ↦
      let n = ==_iff i r in
      (rw e at (get-cons i i r (identity (suc i) params)))
      ∙ identity-get (suc i) params r (ground arith) (omega arith)
]

at_first-IsRenaming : (params : List ℕ) → IsRenaming (at_first params)
at_first-IsRenaming params = (
  (λ r m h. let g = get-identity 0 params r m h in omega arith),
  (λ q r m h k. sym (get-identity 0 params q m h).0 ∙ (get-identity 0 params r m k).0),
  λ m h. (m, identity-get 0 params m (omega arith) (omega arith)),
)

-- The numbers of the parameters are below the next one.
params_fit :
    (params : List ℕ) (s : Renaming)
    → IsRenaming s
    → ((p : ℕ) → p < length params → get p s.register_map ≡ some p)
    → length params ≤ s.next_register
params_fit [] s good kept = omega arith
params_fit (p ∷ params) s good kept =
    let lt = good.0 (length params) (length params) (kept (length params) (omega arith)) in
    omega arith

max-left : (a b : ℕ) → b ≤ a → max a b ≡ a
max-left a b h = ground arith

-- A table that renames all instructions at once, keeps the parameters, and has the given count.
abbrev pub IsCompaction : List ℕ → List Instruction → List Instruction → ℕ → Renaming → Type 0
IsCompaction params instructions compacted compact_count s =
    IsRenaming s
    × (s.next_register ≡ compact_count)
    × ((p : ℕ) → p < length params → get p s.register_map ≡ some p)
    × (rename (λ r. get r s.register_map) (remap instructions) ≡ some compacted)

-- Where compaction gives a result, one table renames every instruction of the function at once,
-- by the same operand positions; no two registers get one number, each parameter keeps its
-- number, and the numbers are exactly those below the new register count.
pub compact_registers-rename :
    (params : List ℕ) (instructions : List Instruction) (register_count : ℕ)
    (compacted : List Instruction) (compact_count : ℕ)
    → compact_registers params instructions register_count ≡ some (compacted, compact_count)
    → (s : Renaming) × IsCompaction params instructions compacted compact_count s
unfolding compact_registers
compact_registers-rename params instructions register_count compacted compact_count e =
    go (run (remap instructions) (at_first params)) refl e
  where
    go :
        (o : Option (List Instruction × Renaming))
        → run (remap instructions) (at_first params) ≡ o
        → counted params o ≡ some (compacted, compact_count)
        → (s : Renaming) × IsCompaction params instructions compacted compact_count s
    go none r h = cc
    go (some (is, s)) r h =
        let (good, more, all) =
          run-rename (remap instructions) (at_first params) (at_first-IsRenaming params) r in
        let kept : (p : ℕ) → p < length params → get p s.register_map ≡ some p =
          λ p lt. more p p (identity-get 0 params p (omega arith) (omega arith)) in
        let same = some_inj h in
        let room = params_fit params s good kept in
        (
          s,
          (
            good,
            sym (max-left s.next_register (length params) room) ∙ ap (λ x. x.1) same,
            kept,
            all (λ r. get r s.register_map) (λ r m g. g) ∙ ap (λ x. some x.0) same,
          ),
        )
