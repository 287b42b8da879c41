-- ===== src/Mir/Verify/Flow.antt =====
-- The loop of _verify_def_use ends.
use qy.Prelude.{
  ℕ, zero, suc, ◌+◌, ◌*◌, ◌≤◌, ◌<◌, ◌≡◌, ◌≢◌, refl, sym, ap, subst, ◌∙◌, inl, inr, ◌⊎◌, true, false,
  not, ◌&&◌, Option, none, some, List, [], ◌∷◌, ◌++◌, length, arith, if◌then◌else◌, Bool-cases,
  true≢false, Option-cases, ℕ_discrete,
}
use qy.Prelude.Members.{
  elem, In, Subset, some_inj, elem→In, In→elem, In-append_cases, In-append_left, In-append_right,
}
use qy.Mir.Node.{Instruction, Block, Function}
use qy.Mir.Operands.{terminator_targets}
use qy.Mir.Dce.Cover.{In-filterb}
use qy.Mir.Verify.DefUse.{
  defined_by, perform_defined, instructions_exit, block_exit, subset, same_set, intersect, Entry,
  get, set_entry, merge, differs, Flow, flow_target, flow_targets, flow_block, flow_blocks,
  flow_round, flow, all_targets, all_defined, param_defined, flow_fuel, first_entry, incoming_of,
}

-- How many of the registers of the universe are in a set.
unfoldable card : List ℕ → List ℕ → ℕ
card [] s = 0
card (u ∷ us) s = let rest = card us s in if elem u s then suc rest else rest

card-le : (us s : List ℕ) → card us s ≤ length us
unfolding card
card-le [] s = omega arith
card-le (u ∷ us) s = ground (arith, card-le us s)

elem-intersect : (x : ℕ) (s e : List ℕ) → elem x (intersect s e) ≡ (elem x s && elem x e)
elem-intersect x [] e = refl
elem-intersect x (y ∷ s) e = elim (ℕ_discrete x y) [
  | yes q ↦ elim (Bool-cases (elem y e)) [
    | inl h ↦ ground (arith, q, h, elem-intersect x s e)
    | inr h ↦ ground (arith, q, h, elem-intersect x s e)
  ]
  | no q ↦ ground (arith, q, elem-intersect x s e)
]

card-intersect : (us s e : List ℕ) → card us (intersect s e) ≤ card us s
unfolding card
card-intersect [] s e = omega arith
card-intersect (u ∷ us) s e = ground (arith, elem-intersect u s e, card-intersect us s e)

card-lost :
    (us s e : List ℕ) (x : ℕ)
    → In x us
    → elem x s ≡ true
    → elem x e ≡ false
    → card us (intersect s e) < card us s
unfolding card
card-lost [] s e x m hs he = absurd m
card-lost (u ∷ us) s e x (inl q) hs he =
    ground (arith, q, hs, he, elem-intersect u s e, card-intersect us s e)
card-lost (u ∷ us) s e x (inr k) hs he =
    ground (arith, elem-intersect u s e, card-lost us s e x k hs he)

abbrev weight : List ℕ → Option (List ℕ) → ℕ
weight us none = suc (length us)
weight us (some s) = card us s

-- How far the sets of the targets can still shrink.
unfoldable measure : List ℕ → List ℕ → List Entry → ℕ
measure us [] es = 0
measure us (t ∷ ts) es = weight us (get t es) + measure us ts es

pub get-set_same : (t : ℕ) (m : List ℕ) (es : List Entry) → get t (set_entry t m es) ≡ some m
unfolding get
get-set_same t m es = ground arith

pub get-set_other :
    (t x : ℕ) (m : List ℕ) (es : List Entry) → x ≢ t → get x (set_entry t m es) ≡ get x es
unfolding get
get-set_other t x m es h = ground (arith, h)

subset-false : (xs ys : List ℕ) → subset xs ys ≡ false → (x : ℕ) × In x xs × (elem x ys ≡ false)
subset-false [] ys h = cc
subset-false (x ∷ xs) ys h = elim (Bool-cases (elem x ys)) [
  | inr e ↦ (x, inl refl, e)
  | inl e ↦ let (y, m, n) = subset-false xs ys (rw e at h) in (y, inr m, n)
]

pub subset-Subset : (xs ys : List ℕ) → subset xs ys ≡ true → Subset xs ys
subset-Subset [] ys h a m = absurd m
subset-Subset (x ∷ xs) ys h a (inl q) = elem→In a ys (rw q (ground arith))
subset-Subset (x ∷ xs) ys h a (inr k) = subset-Subset xs ys (ground arith) a k

Subset-subset : (xs ys : List ℕ) → Subset xs ys → subset xs ys ≡ true
Subset-subset [] ys h = refl
Subset-subset (x ∷ xs) ys h =
    rw (In→elem x ys (h x (inl refl)), Subset-subset xs ys (λ a k. h a (inr k))) refl

pub In-merge :
    (exit_defs s : List ℕ) (x : ℕ) → In x (intersect s exit_defs) → In x s × In x exit_defs
In-merge exit_defs s x m =
    let (k, e) = In-filterb (λ y. elem y exit_defs) s x m in (k, elem→In x exit_defs e)

-- A set that a merge changes loses a register.
lost :
    (s e : List ℕ) → not (same_set (intersect s e) s) ≡ true → (x : ℕ) × In x s × (elem x e ≡ false)
lost s e h =
    let within = Subset-subset (intersect s e) s (λ x m. (In-merge e s x m).0) in
    let (x, m, n) = subset-false s (intersect s e) (ground (arith, h, within)) in
    (x, m, ground (arith, n, elem-intersect x s e, In→elem x s m))

merge-shrinks :
    (us e : List ℕ) (o : Option (List ℕ))
    → ((s : List ℕ) → o ≡ some s → Subset s us)
    → differs (merge e o) o ≡ true
    → card us (merge e o) < weight us o
merge-shrinks us e none inside h = omega (arith, card-le us e)
merge-shrinks us e (some s) inside h =
    let (x, m, n) = lost s e h in card-lost us s e x (inside s refl x m) (In→elem x s m) n

merge-inside :
    (us e : List ℕ) (o : Option (List ℕ))
    → ((s : List ℕ) → o ≡ some s → Subset s us)
    → Subset e us
    → Subset (merge e o) us
merge-inside us e none inside h x m = h x m
merge-inside us e (some s) inside h x m = inside s refl x (In-merge e s x m).0

measure-set_le :
    (us ts : List ℕ) (es : List Entry) (t : ℕ) (m : List ℕ)
    → card us m ≤ weight us (get t es)
    → measure us ts (set_entry t m es) ≤ measure us ts es
unfolding measure
measure-set_le us [] es t m h = omega arith
measure-set_le us (x ∷ ts) es t m h = elim (ℕ_discrete x t) [
  | yes q ↦ rw q (rw (get-set_same t m es) (omega (arith, h, measure-set_le us ts es t m h)))
  | no q ↦ rw (get-set_other t x m es q) (omega (arith, measure-set_le us ts es t m h))
]

measure-set_lt :
    (us ts : List ℕ) (es : List Entry) (t : ℕ) (m : List ℕ)
    → In t ts
    → card us m < weight us (get t es)
    → measure us ts (set_entry t m es) < measure us ts es
unfolding measure
measure-set_lt us [] es t m k h = absurd k
measure-set_lt us (x ∷ ts) es t m (inl q) h =
    rw (← q)
      (rw (get-set_same t m es) (omega (arith, h, measure-set_le us ts es t m (omega arith))))
measure-set_lt us (x ∷ ts) es t m (inr k) h = elim (ℕ_discrete x t) [
  | yes q ↦ rw q (rw (get-set_same t m es) (omega (arith, h, measure-set_lt us ts es t m k h)))
  | no q ↦ rw (get-set_other t x m es q) (omega (arith, measure-set_lt us ts es t m k h))
]

pub append-grows : (ds d d' : List ℕ) → Subset d d' → Subset (ds ++ d) (ds ++ d')
append-grows ds d d' h x m = elim (In-append_cases x ds d m) [
  | inl k ↦ In-append_left x ds d' k
  | inr k ↦ In-append_right x ds d' (h x k)
]

-- The exit set grows with the entry set, and holds it.
pub instructions_exit-grows :
    (is : List Instruction) (d d' : List ℕ)
    → Subset d d'
    → Subset (instructions_exit is d) (instructions_exit is d')
unfolding instructions_exit
instructions_exit-grows [] d d' h x m = h x m
instructions_exit-grows (i ∷ is) d d' h x m =
    instructions_exit-grows is (defined_by i ++ d) (defined_by i ++ d')
      (append-grows (defined_by i) d d' h) x m

instructions_exit-holds : (is : List Instruction) (d : List ℕ) → Subset d (instructions_exit is d)
unfolding instructions_exit
instructions_exit-holds [] d x m = m
instructions_exit-holds (i ∷ is) d x m =
    instructions_exit-holds is (defined_by i ++ d) x (In-append_right x (defined_by i) d m)

pub block_exit-grows :
    (b : Block) (d d' : List ℕ) → Subset d d' → Subset (block_exit b d) (block_exit b d')
unfolding block_exit
block_exit-grows b d d' h =
    append-grows (perform_defined b.terminator.opcode b.terminator.operands)
      (instructions_exit b.instructions d) (instructions_exit b.instructions d')
      (instructions_exit-grows b.instructions d d' h)

In-instructions_exit :
    (is : List Instruction) (d : List ℕ) (x : ℕ)
    → In x (instructions_exit is d)
    → In x d ⊎ In x (instructions_exit is [])
unfolding instructions_exit
In-instructions_exit [] d x m = inl m
In-instructions_exit (i ∷ is) d x m = elim (In-instructions_exit is (defined_by i ++ d) x m) [
  | inl k ↦ elim (In-append_cases x (defined_by i) d k) [
    | inl l ↦
        inr
          (instructions_exit-holds is (defined_by i ++ []) x (In-append_left x (defined_by i) [] l))
    | inr l ↦ inl l
  ]
  | inr k ↦ inr (instructions_exit-grows is [] (defined_by i ++ []) (λ y n. absurd n) x k)
]

exit-inside :
    (b : Block) (d us : List ℕ)
    → Subset (block_exit b []) us
    → Subset d us
    → Subset (block_exit b d) us
unfolding block_exit
exit-inside b d us h k x m =
    let ps = perform_defined b.terminator.opcode b.terminator.operands in
    elim (In-append_cases x ps (instructions_exit b.instructions d) m) [
      | inl l ↦ h x (In-append_left x ps (instructions_exit b.instructions []) l)
      | inr l ↦ elim (In-instructions_exit b.instructions d x l) [
        | inl n ↦ k x n
        | inr n ↦ h x (In-append_right x ps (instructions_exit b.instructions []) n)
      ]
    ]

module _ (us ts : List ℕ) where
  -- Every set stays within the universe.
  abbrev Inside : List Entry → Type 0
  Inside es = (id : ℕ) (s : List ℕ) → get id es ≡ some s → Subset s us

  -- A stretch of the loop changes nothing, or says so and lowers the measure.
  abbrev Progress : Flow → Flow → Type 0
  Progress s s' =
      (s' ≡ s) ⊎ ((s'.changed ≡ true) × (measure us ts s'.incoming < measure us ts s.incoming))

  Progress-trans : (s s' s'' : Flow) → Progress s s' → Progress s' s'' → Progress s s''
  Progress-trans s s' s'' (inl p) q = rw (sym p) q
  Progress-trans s s' s'' (inr (c, h)) (inl q) = inr (rw q (c, h))
  Progress-trans s s' s'' (inr (c, h)) (inr (d, k)) = inr (d, omega arith)

  target-Progress :
      (exit_defs : List ℕ) (t : ℕ) (s : Flow)
      → In t ts
      → Inside s.incoming
      → Progress s (flow_target exit_defs t s)
  unfolding flow_target
  target-Progress exit_defs t s m inside =
      elim (Bool-cases (differs (merge exit_defs (get t s.incoming)) (get t s.incoming))) [
        | inr e ↦ inl (rw e refl)
        | inl e ↦ inr (
            rw e (
              refl,
              measure-set_lt us ts s.incoming t (merge exit_defs (get t s.incoming)) m
                  (merge-shrinks us exit_defs (get t s.incoming) (inside t) e),
            ))
      ]

  set-Inside :
      (t : ℕ) (m : List ℕ) (es : List Entry) → Subset m us → Inside es → Inside (set_entry t m es)
  set-Inside t m es h inside id d q = elim (ℕ_discrete id t) [
    | yes p ↦
        subst (λ (x : List ℕ). Subset x us) (some_inj (sym (get-set_same t m es) ∙ (rw p at q))) h
    | no p ↦ inside id d (sym (get-set_other t id m es p) ∙ q)
  ]

  target-Inside :
      (exit_defs : List ℕ) (t : ℕ) (s : Flow)
      → Subset exit_defs us
      → Inside s.incoming
      → Inside (flow_target exit_defs t s).incoming
  unfolding flow_target
  target-Inside exit_defs t s h inside id d q =
      elim (Bool-cases (differs (merge exit_defs (get t s.incoming)) (get t s.incoming))) [
        | inr e ↦ inside id d (rw e at q)
        | inl e ↦
            set-Inside t (merge exit_defs (get t s.incoming)) s.incoming
              (merge-inside us exit_defs (get t s.incoming) (inside t) h) inside id d (rw e at q)
      ]

  abbrev Stays : Flow → Flow → Type 0
  Stays s s' = Progress s s' × Inside s'.incoming

  targets-Stays :
      (exit_defs : List ℕ) (ids : List ℕ) (s : Flow)
      → Subset exit_defs us
      → Subset ids ts
      → Inside s.incoming
      → Stays s (flow_targets exit_defs ids s)
  unfolding flow_targets
  targets-Stays exit_defs [] s h k inside = (inl refl, inside)
  targets-Stays exit_defs (t ∷ ids) s h k inside =
      let s' = flow_target exit_defs t s in
      let p = target-Progress exit_defs t s (k t (inl refl)) inside in
      let (q, i) =
        targets-Stays exit_defs ids s' h (λ a m. k a (inr m))
          (target-Inside exit_defs t s h inside) in
      (Progress-trans s s' (flow_targets exit_defs ids s') p q, i)

  -- The universe holds what the block defines, and its targets are counted.
  abbrev Fits : Block → Type 0
  Fits b = Subset (block_exit b []) us × Subset (terminator_targets b.terminator) ts

  block-Stays : (b : Block) (s : Flow) → Fits b → Inside s.incoming → Stays s (flow_block b s)
  unfolding flow_block
  block-Stays b s fits inside = elim (Option-cases (get b.id s.incoming)) [
    | inl e ↦ rw e (inl refl, inside)
    | inr (d, e) ↦ rw e (
        targets-Stays (block_exit b d) (terminator_targets b.terminator) s
          (exit-inside b d us fits.0 (inside b.id d e)) fits.1 inside)
  ]

  blocks-Stays :
      (bs : List Block) (s : Flow)
      → ((b : Block) → In b bs → Fits b)
      → Inside s.incoming
      → Stays s (flow_blocks bs s)
  unfolding flow_blocks
  blocks-Stays [] s fits inside = (inl refl, inside)
  blocks-Stays (b ∷ bs) s fits inside =
      let s' = flow_block b s in
      let (p, i) = block-Stays b s (fits b (inl refl)) inside in
      let (q, j) = blocks-Stays bs s' (λ c m. fits c (inr m)) i in
      (Progress-trans s s' (flow_blocks bs s') p q, j)

  flow-ends :
      (fuel : ℕ) (bs : List Block) (es : List Entry)
      → ((b : Block) → In b bs → Fits b)
      → Inside es
      → measure us ts es < fuel
      → (es' : List Entry) × (flow fuel bs es ≡ some es')
  unfolding flow
  flow-ends zero bs es fits inside h = absurd (omega arith)
  flow-ends (suc fuel) bs es fits inside h =
      let start : Flow = record { incoming = es; changed = false } in
      let (p, i) = blocks-Stays bs start fits inside in
      elim (Bool-cases (flow_round bs es).changed) [
        | inr e ↦ rw e ((flow_round bs es).incoming, refl)
        | inl e ↦ elim p [
          | inl q ↦ absurd (true≢false (sym e ∙ ap (λ (x : Flow). x.changed) q))
          | inr (_, l) ↦ rw e (flow-ends fuel bs (flow_round bs es).incoming fits i (omega arith))
        ]
      ]

targets-all :
    (bs : List Block) (b : Block)
    → In b bs
    → Subset (terminator_targets b.terminator) (all_targets bs)
unfolding all_targets
targets-all [] b m x k = absurd m
targets-all (c ∷ bs) b (inl q) x k =
    In-append_left x (terminator_targets c.terminator) (all_targets bs) (rw q at k)
targets-all (c ∷ bs) b (inr m) x k =
    In-append_right x (terminator_targets c.terminator) (all_targets bs) (targets-all bs b m x k)

defined-all : (bs : List Block) (b : Block) → In b bs → Subset (block_exit b []) (all_defined bs)
unfolding all_defined
defined-all [] b m x k = absurd m
defined-all (c ∷ bs) b (inl q) x k = In-append_left x (block_exit c []) (all_defined bs) (rw q at k)
defined-all (c ∷ bs) b (inr m) x k =
    In-append_right x (block_exit c []) (all_defined bs) (defined-all bs b m x k)

weight-le : (us : List ℕ) (o : Option (List ℕ)) → weight us o ≤ suc (length us)
weight-le us none = omega arith
weight-le us (some s) = omega (arith, card-le us s)

measure-bound : (us ts : List ℕ) (es : List Entry) → measure us ts es ≤ length ts * suc (length us)
unfolding measure
measure-bound us [] es = omega arith
measure-bound us (t ∷ ts) es = omega (arith, measure-bound us ts es, weight-le us (get t es))

none-get : (us : List ℕ) (id : ℕ) (d : List ℕ) → get id [] ≡ some d → Subset d us
unfolding get
none-get us id d e = cc

first-Inside :
    (us ts : List ℕ) (bs : List Block) (ps : List ℕ)
    → Subset ps us
    → Inside us ts (first_entry bs ps)
first-Inside us ts [] ps h id d e = none-get us id d e
first-Inside us ts (b ∷ bs) ps h id d e = set-Inside us ts b.id ps [] h (none-get us) id d e

-- The loop over the blocks of a function ends.
pub incoming_of-ends : (f : Function) → (es : List Entry) × (incoming_of f ≡ some es)
unfolding incoming_of flow_fuel
incoming_of-ends f =
    let us = param_defined f ++ all_defined f.blocks in
    let ts = all_targets f.blocks in
    let es = first_entry f.blocks (param_defined f) in
    flow-ends us ts (flow_fuel f) f.blocks es
      (λ b m. (
        λ x k.
            In-append_right x (param_defined f) (all_defined f.blocks)
              (defined-all f.blocks b m x k),
        targets-all f.blocks b m,
      ))
      (first-Inside us ts f.blocks (param_defined f)
        (λ x k. In-append_left x (param_defined f) (all_defined f.blocks) k))
      (omega (arith, measure-bound us ts es))
