-- ===== src/Mir/Verify/Walk.antt =====
-- The walk of _verify_reachability ends, and it visits the blocks that a path leads to.
use qy.Prelude.{
  ℕ, zero, suc, ◌+◌, ◌≤◌, ◌≡◌, refl, subst, sym, ◌⊎◌, inl, inr, ◌↔◌, false, some, List, [], ◌∷◌,
  arith, length, if◌then◌else◌, Bool-cases, true≢false, ◌∙◌, Option-cases, ℕ_discrete,
}
use qy.Prelude.Members.{elem, In, elem→In, In→elem, In-some, some_inj}
use qy.Mir.Node.{Block, Function}
use qy.Mir.Operands.{terminator_targets}
use qy.Mir.Verify.Reach.{
  ids, block_by_id, successors, enqueue, walk, walk_fuel, edge_count, visited_blocks, unvisited,
  unreachable_blocks,
}

-- A path from the entry to a block: an edge goes from a block to a target of its terminator.
pub data Reaches (bs : List Block) (entry : ℕ) : ℕ → Type 0 where
  start : Reaches bs entry entry
  step : {a b : ℕ} → Reaches bs entry a → In b (successors a bs) → Reaches bs entry b

-- The edges of the blocks that are not visited yet.
unfoldable ahead : List ℕ → List Block → ℕ
ahead visited [] = 0
ahead visited (b ∷ bs) =
    let rest = ahead visited bs in
    if elem b.id visited then rest else length (terminator_targets b.terminator) + rest

ahead-none : (bs : List Block) → ahead [] bs ≡ edge_count bs
unfolding ahead edge_count
ahead-none [] = refl
ahead-none (b ∷ bs) = omega (arith, ahead-none bs)

ahead-grow :
    (c : ℕ) (visited : List ℕ) (bs : List Block) → ahead (c ∷ visited) bs ≤ ahead visited bs
unfolding ahead
ahead-grow c visited [] = omega arith
ahead-grow c visited (b ∷ bs) = ground (arith, ahead-grow c visited bs)

-- A block that becomes visited pays for the edges that it adds to the queue.
ahead-visit :
    (c : ℕ) (visited : List ℕ) (bs : List Block)
    → elem c visited ≡ false
    → length (successors c bs) + ahead (c ∷ visited) bs ≤ ahead visited bs
unfolding ahead successors block_by_id
ahead-visit c visited [] h = omega arith
ahead-visit c visited (b ∷ bs) h = elim (Option-cases (block_by_id c bs)) [
  | inr (d, e) ↦ ground (arith, e, ahead-visit c visited bs h)
  | inl e ↦ elim (ℕ_discrete b.id c) [
    | yes q ↦ ground (arith, e, q, h, ahead-grow c visited bs)
    | no q ↦ ground (arith, e, q, ahead-visit c visited bs h)
  ]
]

enqueue-length :
    (visited targets queue : List ℕ)
    → length (enqueue visited targets queue) ≤ length targets + length queue
unfolding enqueue
enqueue-length visited [] queue = omega arith
enqueue-length visited (t ∷ targets) queue =
    ground (arith, enqueue-length visited targets queue, enqueue-length visited targets (t ∷ queue))

enqueue-keeps :
    (visited targets queue : List ℕ) (a : ℕ) → In a queue → In a (enqueue visited targets queue)
unfolding enqueue
enqueue-keeps visited [] queue a h = h
enqueue-keeps visited (t ∷ targets) queue a h = elim (Bool-cases (elem t visited)) [
  | inl e ↦ rw e (enqueue-keeps visited targets queue a h)
  | inr e ↦ rw e (enqueue-keeps visited targets (t ∷ queue) a (inr h))
]

enqueue-adds :
    (visited targets queue : List ℕ) (a : ℕ)
    → In a targets
    → In a visited ⊎ In a (enqueue visited targets queue)
unfolding enqueue
enqueue-adds visited [] queue a h = absurd h
enqueue-adds visited (t ∷ targets) queue a h = elim (Bool-cases (elem t visited)) [
  | inl e ↦ elim h [
    | inl q ↦ inl (elem→In a visited (rw q e))
    | inr k ↦ rw e (enqueue-adds visited targets queue a k)
  ]
  | inr e ↦ elim h [
    | inl q ↦ inr (rw e (enqueue-keeps visited targets (t ∷ queue) a (inl q)))
    | inr k ↦ rw e (enqueue-adds visited targets (t ∷ queue) a k)
  ]
]

enqueue-only :
    (visited targets queue : List ℕ) (a : ℕ)
    → In a (enqueue visited targets queue)
    → In a targets ⊎ In a queue
unfolding enqueue
enqueue-only visited [] queue a h = inr h
enqueue-only visited (t ∷ targets) queue a h = elim (Bool-cases (elem t visited)) [
  | inl e ↦ elim (enqueue-only visited targets queue a (rw e at h)) [
    | inl k ↦ inl (inr k)
    | inr k ↦ inr k
  ]
  | inr e ↦ elim (enqueue-only visited targets (t ∷ queue) a (rw e at h)) [
    | inl k ↦ inl (inr k)
    | inr (inl q) ↦ inl (inl q)
    | inr (inr k) ↦ inr k
  ]
]

-- The walk ends.
walk-ends :
    (fuel : ℕ) (bs : List Block) (visited queue : List ℕ)
    → length queue + ahead visited bs ≤ fuel
    → (found : List ℕ) × (walk fuel bs visited queue ≡ some found)
unfolding walk
walk-ends fuel bs visited [] h = (visited, refl)
walk-ends zero bs visited (c ∷ queue) h = absurd (omega arith)
walk-ends (suc fuel) bs visited (c ∷ queue) h = elim (Bool-cases (elem c visited)) [
  | inl e ↦ rw e (walk-ends fuel bs visited queue (omega arith))
  | inr e ↦ rw e (
      walk-ends fuel bs (c ∷ visited) (enqueue (c ∷ visited) (successors c bs) queue) (
        omega (
          arith,
          ahead-visit c visited bs e,
          enqueue-length (c ∷ visited) (successors c bs) queue,
        )))
]

module _ (bs : List Block) (entry : ℕ) where
  abbrev AllReached : List ℕ → Type 0
  AllReached xs = (a : ℕ) → In a xs → Reaches bs entry a

  -- A visited block's targets are visited or queued.
  abbrev Closed : List ℕ → List ℕ → Type 0
  Closed visited queue =
      (a b : ℕ) → In a visited → In b (successors a bs) → In b visited ⊎ In b queue

  queue-reached :
      (visited queue : List ℕ) (c : ℕ)
      → AllReached (c ∷ queue)
      → AllReached (enqueue visited (successors c bs) queue)
  queue-reached visited queue c hq a k = elim (enqueue-only visited (successors c bs) queue a k) [
    | inl m ↦ step (hq c (inl refl)) m
    | inr m ↦ hq a (inr m)
  ]

  visited-reached :
      (visited queue : List ℕ) (c : ℕ)
      → AllReached visited
      → AllReached (c ∷ queue)
      → AllReached (c ∷ visited)
  visited-reached visited queue c hv hq a (inl q) = hq a (inl q)
  visited-reached visited queue c hv hq a (inr k) = hv a k

  walk-reached :
      (fuel : ℕ) (visited queue found : List ℕ)
      → AllReached visited
      → AllReached queue
      → walk fuel bs visited queue ≡ some found
      → AllReached found
  unfolding walk
  walk-reached fuel visited [] found hv hq e = subst AllReached (some_inj e) hv
  walk-reached zero visited (c ∷ queue) found hv hq e = cc
  walk-reached (suc fuel) visited (c ∷ queue) found hv hq e = elim (Bool-cases (elem c visited)) [
    | inl s ↦ walk-reached fuel visited queue found hv (λ a k. hq a (inr k)) (rw s at e)
    | inr s ↦
        walk-reached fuel (c ∷ visited) (enqueue (c ∷ visited) (successors c bs) queue) found
          (visited-reached visited queue c hv hq) (queue-reached (c ∷ visited) queue c hq)
          (rw s at e)
  ]

  skip-Closed :
      (visited queue : List ℕ) (c : ℕ)
      → In c visited
      → Closed visited (c ∷ queue)
      → Closed visited queue
  skip-Closed visited queue c m hc a b k s = elim (hc a b k s) [
    | inl n ↦ inl n
    | inr (inl q) ↦ inl (subst (λ (x : ℕ). In x visited) (sym q) m)
    | inr (inr n) ↦ inr n
  ]

  visit-Closed :
      (visited queue : List ℕ) (c : ℕ)
      → Closed visited (c ∷ queue)
      → Closed (c ∷ visited) (enqueue (c ∷ visited) (successors c bs) queue)
  visit-Closed visited queue c hc a b (inl q) s =
      enqueue-adds (c ∷ visited) (successors c bs) queue b (rw q at s)
  visit-Closed visited queue c hc a b (inr k) s = elim (hc a b k s) [
    | inl n ↦ inl (inr n)
    | inr (inl q) ↦ inl (inl q)
    | inr (inr n) ↦ inr (enqueue-keeps (c ∷ visited) (successors c bs) queue b n)
  ]

  walk-Closed :
      (fuel : ℕ) (visited queue found : List ℕ)
      → Closed visited queue
      → walk fuel bs visited queue ≡ some found
      → Closed found [] × ((a : ℕ) → In a visited ⊎ In a queue → In a found)
  unfolding walk
  walk-Closed fuel visited [] found hc e = (
    subst (λ (xs : List ℕ). Closed xs []) (some_inj e) hc,
    λ a k. elim k [ inl m ↦ In-some a visited found e m | inr m ↦ absurd m ],
  )
  walk-Closed zero visited (c ∷ queue) found hc e = cc
  walk-Closed (suc fuel) visited (c ∷ queue) found hc e = elim (Bool-cases (elem c visited)) [
    | inl s ↦
        let m = elem→In c visited s in
        let (closed, all) =
          walk-Closed fuel visited queue found (skip-Closed visited queue c m hc) (rw s at e) in
        (
          closed,
          λ a k. elim k [
            | inl n ↦ all a (inl n)
            | inr (inl q) ↦ all a (inl (subst (λ (x : ℕ). In x visited) (sym q) m))
            | inr (inr n) ↦ all a (inr n)
          ],
        )
    | inr s ↦
        let next = enqueue (c ∷ visited) (successors c bs) queue in
        let (closed, all) =
          walk-Closed fuel (c ∷ visited) next found (visit-Closed visited queue c hc) (rw s at e) in
        (
          closed,
          λ a k. elim k [
            | inl n ↦ all a (inl (inr n))
            | inr (inl q) ↦ all a (inl (inl q))
            | inr (inr n) ↦ all a (inr (enqueue-keeps (c ∷ visited) (successors c bs) queue a n))
          ],
        )
  ]

  closed-reached :
      (found : List ℕ)
      → Closed found []
      → In entry found
      → (a : ℕ) → Reaches bs entry a
      → In a found
  closed-reached found closed m a start = m
  closed-reached found closed m b (step {a} r s) =
      elim (closed a b (closed-reached found closed m a r) s) [ inl k ↦ k | inr k ↦ absurd k ]

-- The walk from the entry ends, and it visits the blocks that the entry reaches and no others.
pub visited_blocks_lem :
    (f : Function)
    → (found : List ℕ) × (visited_blocks f ≡ some found)
      × ((a : ℕ) → In a found ↔ Reaches f.blocks f.entry a)
visited_blocks_lem f =
    let (found, e) =
      walk-ends (walk_fuel f.blocks) f.blocks [] (f.entry ∷ [])
        (omega (arith, ahead-none f.blocks)) in
    let (closed, all) =
      walk-Closed f.blocks f.entry (walk_fuel f.blocks) [] (f.entry ∷ []) found
        (λ a b k s. absurd k) e in
    let reached =
      walk-reached f.blocks f.entry (walk_fuel f.blocks) [] (f.entry ∷ []) found (λ a k. absurd k)
        (λ a k. elim k [
          | inl q ↦ subst (Reaches f.blocks f.entry) (sym q) start
          | inr n ↦ absurd n
        ])
        e in
    (
      found,
      e,
      λ a. (
        reached a,
        closed-reached f.blocks f.entry found closed (all f.entry (inr (inl refl))) a,
      ),
    )

unvisited-inv :
    (visited : List ℕ) (bs : List Block) (id : ℕ)
    → In id (unvisited visited bs)
    → In id (ids bs) × (¬ In id visited)
unvisited-inv visited [] id h = absurd h
unvisited-inv visited (b ∷ bs) id h = elim (Bool-cases (elem b.id visited)) [
  | inl e ↦ let (m, n) = unvisited-inv visited bs id (rw e at h) in (inr m, n)
  | inr e ↦ elim (rw e at h) [
    | inl q ↦ (inl q, λ m. true≢false (sym (In→elem b.id visited (rw q at m)) ∙ e))
    | inr k ↦ let (m, n) = unvisited-inv visited bs id k in (inr m, n)
  ]
]

In-unvisited :
    (visited : List ℕ) (bs : List Block) (id : ℕ)
    → In id (ids bs)
    → ¬ In id visited
    → In id (unvisited visited bs)
In-unvisited visited [] id h n = absurd h
In-unvisited visited (b ∷ bs) id h n = elim (Bool-cases (elem b.id visited)) [
  | inl e ↦ elim h [
    | inl q ↦ absurd (n (rw q (elem→In b.id visited e)))
    | inr k ↦ rw e (In-unvisited visited bs id k n)
  ]
  | inr e ↦ elim h [ inl q ↦ rw e (inl q) | inr k ↦ rw e (inr (In-unvisited visited bs id k n)) ]
]

-- Where the entry is a block of the function, the check names exactly the blocks of the function
-- that no path from the entry leads to; where it is not, the check names none.
pub unreachable_blocks_lem :
    (f : Function) (id : ℕ)
    → In id (unreachable_blocks f)
      ↔ (In f.entry (ids f.blocks) × In id (ids f.blocks) × (¬ Reaches f.blocks f.entry id))
unfolding unreachable_blocks
unreachable_blocks_lem f id =
    let (found, e, reached) = visited_blocks_lem f in
    elim (Bool-cases (elem f.entry (ids f.blocks))) [
      | inl m ↦
          rw (m, e)
            (
              λ h.
                  let (k, n) = unvisited-inv found f.blocks id h in
                  (elem→In f.entry (ids f.blocks) m, k, λ r. n ((reached id).1 r)),
              λ h. In-unvisited found f.blocks id h.1 (λ k. h.2 ((reached id).0 k)),
            )
      | inr m ↦ rw m (λ h. absurd h, λ h. true≢false (sym (In→elem f.entry (ids f.blocks) h.0) ∙ m))
    ]
