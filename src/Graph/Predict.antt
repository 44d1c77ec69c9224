-- ===== src/Graph/Predict.antt =====
-- Prediction and the statistics of ClusterGraph (src/core/cluster_graph.h): `predict_chain`,
-- `predict_chain_typed`, `total_edges`, `total_edges_of_type` and `alive_count`.
use engram_core.Prelude.{
  ℕ, zero, suc, ◌+◌, List, [], ◌∷◌, ◌&&◌, none, some, ◌==◌, if◌then◌else◌, ℤ, minus_one, in_range,
  length,
}
use engram_core.Prelude.Float.{Float}
use engram_core.Graph.Node.{Node, Edge, count_edges_of_type}
use engram_core.Graph.Arena.{Graph}

module _ {F : Float} where
  -- The search for the strongest edge of one type: its target and weight, from -1 and 0 on.
  unfoldable pub better : ℕ → Edge F → ℤ × F.Carrier → ℤ × F.Carrier
  better follow e best =
      if e.kind == follow && F.ltb best.1 e.weight then (e.target, e.weight) else best

  unfoldable pub best_from : ℕ → List (Edge F) → ℤ × F.Carrier → ℤ × F.Carrier
  unfolding better
  best_from follow [] best = best
  best_from follow (e ∷ es) best = best_from follow es (better follow e best)

  unfoldable pub best_edge : ℕ → List (Edge F) → ℤ × F.Carrier
  unfolding best_from
  best_edge follow es = best_from follow es (minus_one, F.lit 0 1)

  -- `edges[0]`, the strongest edge of a sorted array.
  unfoldable pub first_target : List (Edge F) → ℤ
  first_target [] = minus_one
  first_target (e ∷ es) = e.target

  -- The `max_steps` rounds of both predictions, which differ in the choice of the next slot.
  unfoldable pub follow_chain : (List (Edge F) → ℤ) → Graph F → ℕ → ℕ → List ℕ
  follow_chain choice g zero current = []
  follow_chain choice g (suc steps) current =
      elim (in_range g.node_count (choice (g.cortex_memory current).edges)) [
        | none ↦ []
        | some t ↦ t ∷ follow_chain choice g steps t
      ]

  unfoldable pub predict_chain : ℕ → ℕ → Graph F → List ℕ
  unfolding first_target follow_chain
  predict_chain start max_steps g = follow_chain first_target g max_steps start

  unfoldable pub predict_chain_typed : ℕ → ℕ → ℕ → Graph F → List ℕ
  unfolding best_edge follow_chain
  predict_chain_typed start follow max_steps g =
      follow_chain (λ es. (best_edge follow es).0) g max_steps start

  -- The sum over the live nodes below `n`.
  unfoldable pub sum_alive : (Node F → ℕ) → Graph F → ℕ → ℕ
  sum_alive value g zero = 0
  sum_alive value g (suc n) =
      (if (g.cortex_memory n).alive then value (g.cortex_memory n) else 0) + sum_alive value g n

  unfoldable pub total_edges : Graph F → ℕ
  unfolding sum_alive
  total_edges g = sum_alive (λ n. length n.edges) g g.node_count

  unfoldable pub total_edges_of_type : ℕ → Graph F → ℕ
  unfolding sum_alive
  total_edges_of_type kind g = sum_alive (count_edges_of_type kind) g g.node_count

  unfoldable pub alive_count : Graph F → ℕ
  unfolding sum_alive
  alive_count g = sum_alive (λ n. 1) g g.node_count
