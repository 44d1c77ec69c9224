-- ===== src/Graph/Chain.antt =====
-- The temporal chain of ClusterGraph (src/core/cluster_graph.h): `record_fire`, `reset_chain`, and the
-- spike-timing updates along the chain. Each call runs alone under `chain_lock`.
use engram_core.Prelude.{
  ℕ, ◌+◌, List, [], ◌∷◌, ◌++◌, Bool, none, some, ltb, ◌==◌, if◌then◌else◌, update, length, drop,
  reverse, ℤ, pos, negsuc, minus_one, ◌==ℤ◌, in_range,
}
use engram_core.Prelude.Float.{Float, fmin, fmax}
use engram_core.Neuromod.{NeuromodState, plasticity_scale_load}
use engram_core.Graph.Node.{Node, Edge, add_edge, add_inverse_edge, edge_temporal, prov_unknown}
use engram_core.Graph.Arena.{Graph}

abbrev pub chain_capacity : ℕ
chain_capacity = 32

-- A full chain loses its oldest entry (`memmove`).
unfoldable pub push_chain : ℤ → List ℤ → List ℤ
push_chain id chain =
    if ltb (length chain) chain_capacity then chain ++ (id ∷ []) else drop 1 chain ++ (id ∷ [])

module _ (F : Float) where
  -- `STDP_A_PLUS`, `STDP_A_MINUS` and `STDP_TAU_MS`; `scale` is the modulator's state.
  unfoldable pub stdp_delta : NeuromodState F → F.Carrier → F.Carrier
  stdp_delta scale dt =
      F.mul
        (if F.leb (F.lit 0 1) dt
          then F.mul (F.lit 10 100) (F.exp (F.div (F.neg dt) (F.lit 20 1)))
          else F.mul (F.neg (F.lit 8 100)) (F.exp (F.div dt (F.lit 20 1))))
        (plasticity_scale_load F scale)

  unfoldable pub clamp_weight : F.Carrier → F.Carrier
  clamp_weight w = fmax F (F.lit 0 1) (fmin F (F.lit 5 1) w)

  -- Neighbours on the chain fire a millisecond apart.
  abbrev pub hop : Bool → F.Carrier
  hop forward = if forward then F.lit 1 1 else F.neg (F.lit 1 1)

module _ {F : Float} where
  unfoldable pub modify : ℕ → (Node F → Node F) → Graph F → Graph F
  modify i f g = record g { cortex_memory = update g.cortex_memory i (f (g.cortex_memory i)) }

  -- The temporal bond from the last fired cluster.
  unfoldable pub bond : ℤ → ℕ → Graph F → Graph F
  unfolding modify
  bond (negsuc _) id g = g
  bond (pos lf) id g =
      if lf == id
      then g
      else modify id (add_inverse_edge (pos lf) (F.lit 2 10) edge_temporal)
          (modify lf (add_edge (pos id) (F.lit 2 10) edge_temporal prov_unknown) g)

  unfoldable pub record_fire : ℕ → Graph F → Graph F
  unfolding push_chain
  record_fire id g = record (bond g.last_fired id g) {
    last_fired = pos id;
    chain = push_chain (pos id) g.chain;
  }

  unfoldable pub reset_chain : Graph F → Graph F
  reset_chain g = record g { last_fired = minus_one; chain = [] }

  -- The first edge to the target, of any type, takes the change.
  unfoldable pub nudge_first : ℤ → F.Carrier → List (Edge F) → List (Edge F)
  nudge_first post dw [] = []
  nudge_first post dw (e ∷ es) =
      if ◌==ℤ◌ e.target post
      then record e { weight = clamp_weight F (F.add e.weight dw) } ∷ es
      else e ∷ nudge_first post dw es

  unfoldable pub nudge : ℤ → F.Carrier → Node F → Node F
  nudge post dw n = record n { edges = nudge_first post dw n.edges }

  unfoldable pub apply_stdp : NeuromodState F → ℤ → ℤ → F.Carrier → Graph F → Graph F
  unfolding modify nudge
  apply_stdp scale pre post dt g = elim (in_range g.node_count pre) [
    | none ↦ g
    | some p ↦ elim (in_range g.node_count post) [
      | none ↦ g
      | some q ↦ modify p (nudge post (stdp_delta F scale dt)) g
    ]
  ]

  -- `apply_chain_stdp`: each neighbouring pair, oldest first.
  unfoldable pub stdp_along : NeuromodState F → F.Carrier → List ℤ → Graph F → Graph F
  stdp_along scale dt [] g = g
  stdp_along scale dt (a ∷ []) g = g
  stdp_along scale dt (a ∷ b ∷ rest) g = stdp_along scale dt (b ∷ rest) (apply_stdp scale a b dt g)

  unfoldable pub apply_chain_stdp : NeuromodState F → F.Carrier → Graph F → Graph F
  unfolding stdp_along
  apply_chain_stdp scale reward_sign g =
      stdp_along scale (hop F (F.ltb (F.lit 0 1) reward_sign)) g.chain g

  -- The loop of `assign_credit`, youngest pair first: `rev` is the chain from its end, `age` counts
  -- the steps back, and `credit` is the discounted reward there.
  unfoldable pub credit_back :
      NeuromodState F → F.Carrier → F.Carrier → ℕ → List ℤ → Graph F → Graph F
  credit_back scale reward gamma age [] g = g
  credit_back scale reward gamma age (b ∷ []) g = g
  credit_back scale reward gamma age (b ∷ a ∷ rest) g =
      let credit = F.mul reward (F.pow gamma (age + 1)) in
      credit_back scale reward gamma (age + 1) (a ∷ rest)
        (apply_stdp scale a b (hop F (F.ltb (F.lit 0 1) credit)) g)

  unfoldable pub assign_credit : NeuromodState F → F.Carrier → F.Carrier → Graph F → Graph F
  unfolding credit_back
  assign_credit scale reward gamma g = credit_back scale reward gamma 0 (reverse g.chain) g
