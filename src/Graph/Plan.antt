-- ===== src/Graph/Plan.antt =====
-- Path planning of ClusterGraph (src/core/cluster_graph.h): `plan_path` and `plan_path_typed`. They
-- differ in the edges they follow: all, or those of one type.
use engram_core.Prelude.{
  ℕ, zero, suc, List, [], ◌∷◌, ◌++◌, Bool, true, false, ◌||◌, not, Option, none, some, ◌==◌,
  if◌then◌else◌, update, ℤ, pos, negsuc, minus_one, in_range, reverse,
}
use engram_core.Prelude.Float.{Float}
use engram_core.Graph.Node.{Edge}
use engram_core.Graph.Arena.{Graph}

-- The scratch arrays; `queue` holds `_bfs_queue` from `qfront` up to `qback`.
pub record Search : Type 0 where
  pub parent : ℕ → ℤ
  pub visited : ℕ → Bool
  pub queue : List ℕ

pub data Scan : Type 0 where
  found : Search → Scan
  going : Search → Scan

unfoldable pub start_search : ℕ → Search
start_search start = record {
  parent = λ i. minus_one;
  visited = λ i. i == start;
  queue = start ∷ [];
}

-- `_bfs_visited[tgt] = true; _bfs_parent[tgt] = cur;`, and the push on the queue.
unfoldable pub mark : ℕ → ℕ → Search → Search
mark cur t s = record s { visited = update s.visited t true; parent = update s.parent t (pos cur) }

unfoldable pub enqueue : ℕ → Search → Search
enqueue t s = record s { queue = s.queue ++ (t ∷ []) }

-- The walk back from the goal, which stops at the start or when the output is full. What it writes
-- is reversed in place afterwards. A parent of -1 is never met on the way (Graph/PlanSound).
unfoldable pub trace_back : (ℕ → ℤ) → ℕ → ℕ → ℕ → List ℕ
trace_back parent start zero trace = []
trace_back parent start (suc room) trace = elim (trace == start) [
  | true ↦ []
  | false ↦ elim (parent trace) [
    | pos p ↦ trace ∷ trace_back parent start room p
    | negsuc _ ↦ trace ∷ []
  ]
]

module _ {F : Float} where
  unfoldable pub scan_edges : (Edge F → Bool) → ℕ → ℕ → ℕ → List (Edge F) → Search → Scan
  unfolding mark enqueue
  scan_edges wanted count goal cur [] s = going s
  scan_edges wanted count goal cur (e ∷ es) s =
      let skip = scan_edges wanted count goal cur es s in
      elim (in_range count e.target) [
        | none ↦ skip
        | some t ↦
            let go_on = scan_edges wanted count goal cur es (enqueue t (mark cur t s)) in
            if not (wanted e) || s.visited t
            then skip
            else if t == goal
            then found (mark cur t s)
            else go_on
      ]

  -- The `while (qfront < qback)` loop: `none` is lack of fuel, `some none` an empty queue.
  unfoldable pub search_loop : (Edge F → Bool) → Graph F → ℕ → ℕ → Search → Option (Option Search)
  unfolding scan_edges
  search_loop wanted g goal zero s = none
  search_loop wanted g goal (suc fuel) s = elim s.queue [
    | [] ↦ some none
    | cur ∷ rest ↦
        elim (scan_edges wanted g.node_count goal cur (g.cortex_memory cur).edges
          (record s { queue = rest })) [
            | found s' ↦ some (some s')
            | going s' ↦ search_loop wanted g goal fuel s'
          ]
  ]

  -- `plan_path` and `plan_path_typed`; each slot enters the queue at most once, so one round more
  -- than there are slots is enough (Graph/PlanSound).
  unfoldable pub plan : (Edge F → Bool) → ℕ → ℕ → ℕ → Graph F → Option (List ℕ)
  unfolding search_loop start_search trace_back
  plan wanted start goal max_len g =
      if start == goal
      then some []
      else elim (search_loop wanted g goal (suc g.node_count) (start_search start)) [
        | none ↦ none
        | some none ↦ some []
        | some (some s) ↦ some (reverse (trace_back s.parent start max_len goal))
      ]

  unfoldable pub plan_path : ℕ → ℕ → ℕ → Graph F → Option (List ℕ)
  unfolding plan
  plan_path = plan (λ e. true)

  unfoldable pub plan_path_typed : ℕ → ℕ → ℕ → ℕ → Graph F → Option (List ℕ)
  unfolding plan
  plan_path_typed follow = plan (λ e. e.kind == follow)
