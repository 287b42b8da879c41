-- ===== src/Mir/Verify/Reach.antt =====
-- qy/ir/mir/__init__.py, _verify_reachability: the walk over the blocks from the entry.
use qy.Prelude.{
  ℕ, zero, suc, ◌+◌, Option, none, some, List, [], ◌∷◌, map, length, ◌==◌, if◌then◌else◌,
}
use qy.Prelude.Members.{elem}
use qy.Mir.Node.{Block, Function}
use qy.Mir.Operands.{terminator_targets}
use qy.Mir.Verify.Problem.{Diagnostic, report, warning, unreachable}

abbrev pub ids : List Block → List ℕ
ids bs = map (λ b. b.id) bs

-- `block_by_id`: of blocks with one id, the last.
unfoldable pub block_by_id : ℕ → List Block → Option Block
block_by_id id [] = none
block_by_id id (b ∷ bs) = elim (block_by_id id bs) [
  | some c ↦ some c
  | none ↦ if b.id == id then some b else none
]

-- The targets of the block with this id.
unfoldable pub successors : ℕ → List Block → List ℕ
successors id bs = elim (block_by_id id bs) [ some b ↦ terminator_targets b.terminator | none ↦ [] ]

-- `if target not in visited: queue.append(target)`; the head of the queue is its end in the source.
unfoldable pub enqueue : List ℕ → List ℕ → List ℕ → List ℕ
enqueue visited [] queue = queue
enqueue visited (t ∷ targets) queue =
    enqueue visited targets (if elem t visited then queue else t ∷ queue)

-- `while queue`. A unit of fuel for each block that is taken off the queue.
unfoldable pub walk : ℕ → List Block → List ℕ → List ℕ → Option (List ℕ)
walk fuel bs visited [] = some visited
walk zero bs visited (c ∷ queue) = none
walk (suc fuel) bs visited (c ∷ queue) =
    let skip = walk fuel bs visited queue in
    let go = walk fuel bs (c ∷ visited) (enqueue (c ∷ visited) (successors c bs) queue) in
    if elem c visited then skip else go

unfoldable pub edge_count : List Block → ℕ
edge_count [] = 0
edge_count (b ∷ bs) = length (terminator_targets b.terminator) + edge_count bs

-- No block is entered twice, so each edge is queued once at most.
abbrev pub walk_fuel : List Block → ℕ
walk_fuel bs = suc (edge_count bs)

abbrev pub visited_blocks : Function → Option (List ℕ)
visited_blocks f = walk (walk_fuel f.blocks) f.blocks [] (f.entry ∷ [])

abbrev pub unvisited : List ℕ → List Block → List ℕ
unvisited visited [] = []
unvisited visited (b ∷ bs) =
    let rest = unvisited visited bs in if elem b.id visited then rest else b.id ∷ rest

abbrev pub unreached : Option (List ℕ) → List Block → List ℕ
unreached none bs = []
unreached (some visited) bs = unvisited visited bs

-- _verify_reachability, the blocks that it names.
unfoldable pub unreachable_blocks : Function → List ℕ
unreachable_blocks f =
    if elem f.entry (ids f.blocks) then unreached (visited_blocks f) f.blocks else []

unfoldable pub verify_reachability : Function → List Diagnostic
verify_reachability f =
    map (λ id. report warning (some f.name) (some id) unreachable) (unreachable_blocks f)
