-- ===== src/Graph/Spread.antt =====
-- Spreading activation of ClusterGraph (src/core/cluster_graph.h). `rounds` is MAX_REASONING_DEPTH less
-- the depth of the call, so the recursion ends as in the source; a call runs alone.
use engram_core.Prelude.{
  take, ℕ, zero, suc, ◌+◌, List, [], ◌∷◌, ◌&&◌, none, some, ◌==◌, if◌then◌else◌, ℤ, in_range,
}
use engram_core.Prelude.Float.{Float}
use engram_core.Neuromod.{NeuromodState, effective_activation_cutoff}
use engram_core.Graph.Node.{Node, Edge}
use engram_core.Graph.Arena.{Graph}
use engram_core.Graph.Chain.{modify}

abbrev pub max_reasoning_depth : ℕ
max_reasoning_depth = 15

abbrev pub spread_fanout_cap : ℕ
spread_fanout_cap = 12

-- The first `n` elements.
module _ (F : Float) where
  -- The cutoff that the modulator gives for ACTIVATION_CUTOFF, and a hop's decay.
  abbrev pub cutoff : NeuromodState F → F.Carrier
  cutoff m = effective_activation_cutoff F (F.lit 1 100) m

  abbrev pub propagated : F.Carrier → F.Carrier → F.Carrier
  propagated strength w = F.mul (F.mul strength (F.lit 7 10)) w

  -- A recursive call: source, strength and graph to the graph and the number activated.
  abbrev pub Call : Type 0
  Call = ℤ → F.Carrier → Graph F → Graph F × ℕ

module _ {F : Float} where
  abbrev pub activation_of : Graph F → ℕ → F.Carrier
  activation_of g i = (g.cortex_memory i).activation

  unfoldable pub set_activation : ℕ → F.Carrier → Graph F → Graph F
  unfolding modify
  set_activation i v g = modify i (λ n. record n { activation = v }) g

  -- The store that only raises.
  unfoldable pub raise_activation : ℕ → F.Carrier → Graph F → Graph F
  unfolding set_activation
  raise_activation i v g = if F.ltb (activation_of g i) v then set_activation i v g else g

  -- The edge loop of `spread_typed` and `spread_typed_inverse`: `room` is the cap less `followed`.
  unfoldable pub typed_loop : Call F → ℕ → F.Carrier → List (Edge F) → ℕ → Graph F → ℕ → Graph F × ℕ
  typed_loop call follow strength [] room g activated = (g, activated)
  typed_loop call follow strength (e ∷ es) zero g activated = (g, activated)
  typed_loop call follow strength (e ∷ es) (suc room) g activated =
      let skip = typed_loop call follow strength es (suc room) g activated in
      let pass = typed_loop call follow strength es room g activated in
      let prop = propagated F strength e.weight in
      let (h, n) = call e.target prop g in
      let visit = typed_loop call follow strength es room h (activated + n) in
      if e.kind == follow
      then (elim (in_range g.node_count e.target) [
        | none ↦ skip
        | some t ↦
            if F.leb (F.lit 0 1) (activation_of g t) && F.ltb (activation_of g t) prop
            then visit
            else pass
      ])
      else skip

  module _ (m : NeuromodState F) (links : Node F → List (Edge F)) where
    unfoldable pub spread_links : ℕ → ℕ → Call F
    unfolding typed_loop raise_activation
    spread_links zero follow source strength g = (g, 0)
    spread_links (suc rounds) follow source strength g = elim (in_range g.node_count source) [
      | none ↦ (g, 0)
      | some s ↦
          if F.ltb strength (cutoff F m)
          then (g, 0)
          else if F.ltb (activation_of g s) (F.lit 0 1)
          then (g, 0)
          else typed_loop (spread_links rounds follow) follow strength (links (g.cortex_memory s))
              spread_fanout_cap (raise_activation s strength g) 1
    ]

  -- `spread_typed` and `spread_typed_inverse`, at depth 0.
  unfoldable pub spread_typed : NeuromodState F → ℕ → Call F
  unfolding spread_links
  spread_typed m follow = spread_links m (λ n. n.edges) max_reasoning_depth follow

  unfoldable pub spread_typed_inverse : NeuromodState F → ℕ → Call F
  unfolding spread_links
  spread_typed_inverse m follow = spread_links m (λ n. n.inverse_edges) max_reasoning_depth follow

  -- The loop of `spread_activation_inverse`.
  unfoldable pub inverse_loop : Call F → F.Carrier → List (Edge F) → Graph F → ℕ → Graph F × ℕ
  inverse_loop call strength [] g activated = (g, activated)
  inverse_loop call strength (e ∷ es) g activated =
      let skip = inverse_loop call strength es g activated in
      let prop = propagated F strength e.weight in
      let (h, n) = call e.target prop g in
      let visit = inverse_loop call strength es h (activated + n) in
      elim (in_range g.node_count e.target) [
        | none ↦ skip
        | some t ↦ if F.ltb (activation_of g t) prop then visit else skip
      ]

  unfoldable pub spread_inverse : NeuromodState F → ℕ → Call F
  unfolding inverse_loop raise_activation
  spread_inverse m zero source strength g = (g, 0)
  spread_inverse m (suc rounds) source strength g = elim (in_range g.node_count source) [
    | none ↦ (g, 0)
    | some s ↦
        if F.ltb strength (cutoff F m)
        then (g, 0)
        else inverse_loop (spread_inverse m rounds) strength
            (take spread_fanout_cap (g.cortex_memory s).inverse_edges)
            (raise_activation s strength g) 1
  ]

  unfoldable pub spread_activation_inverse : NeuromodState F → Call F
  unfolding spread_inverse
  spread_activation_inverse m = spread_inverse m max_reasoning_depth
