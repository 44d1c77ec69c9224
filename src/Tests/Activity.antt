-- ===== src/Tests/Activity.antt =====
-- The chain, the plasticity and the activation of the graph (src/core/cluster_graph.h) at concrete
-- inputs, over an arithmetic of thousandths.
use engram_core.Prelude.{false, ℕ, ◌<◌, refl, [], ◌∷◌, false, arith, pos}
use engram_core.Prelude.Float.{thousandths, thousandths-IsOrder}
use engram_core.Neuromod.{NeuromodState}
use engram_core.Graph.Arena.{Graph}
use engram_core.Graph.Chain.{apply_chain_stdp, assign_credit}
use engram_core.Graph.Stdp.{AllInRange, OnlyWeights, plasticity-OnlyWeights}
use engram_core.Graph.Spread.{spread_typed}
use engram_core.Graph.Locality.{Within, Closed, spread_typed-Within}
use engram_core.Graph.Activity.{get_top_activated}
use engram_core.Graph.Ranking.{Ranks, get_top_activated-Ranks}
use engram_core.Tests.Graph.{linked}

abbrev pub linked_graph : Graph thousandths
linked_graph = record {
  cortex_memory = λ i. linked;
  node_count = 8;
  free_next = λ i. pos 0;
  free_head = 0;
  last_fired = pos 1;
  chain = pos 1 ∷ pos 3 ∷ pos 5 ∷ [];
  san_bound = false;
  san_threshold = pos 1000000;
}

abbrev pub calm : NeuromodState thousandths
calm = record {
  plasticity_scale = pos 1000;
  arousal = pos 0;
  last_prediction_error = pos 0;
  pe_ema = pos 0;
}

linked-AllInRange : AllInRange linked_graph
linked-AllInRange i = ((refl, refl), ((refl, refl), tt))

plasticity-OnlyWeights_example :
    OnlyWeights linked_graph (apply_chain_stdp calm (pos 1000) linked_graph)
    × OnlyWeights linked_graph (assign_credit calm (pos 1000) (pos 900) linked_graph)
plasticity-OnlyWeights_example =
    plasticity-OnlyWeights thousandths-IsOrder refl calm (pos 1000) (pos 900) linked_graph
      linked-AllInRange

-- All nodes are linked to 3 and 5.
abbrev Reached : ℕ → Type 0
Reached i = 0 < i

linked-Closed : Closed Reached 4 (λ n. n.edges) linked_graph
linked-Closed i p = ((λ k t h. ground arith), ((λ k t h. ground arith), tt))

spread_typed-Within_example :
    Within Reached linked_graph (spread_typed calm 4 (pos 1) (pos 1000) linked_graph).0
spread_typed-Within_example =
    spread_typed-Within thousandths-IsOrder calm Reached 4 (pos 1) (pos 1000) linked_graph
      linked-Closed (λ s h. ground arith)

get_top_activated-Ranks_example : Ranks calm 2 linked_graph (get_top_activated calm 2 linked_graph)
get_top_activated-Ranks_example = get_top_activated-Ranks thousandths-IsOrder calm 2 linked_graph
