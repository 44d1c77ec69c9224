-- ===== src/Graph/Activity.antt =====
-- Bulk activation passes of ClusterGraph (src/core/cluster_graph.h): `clear_activation`, `tick`,
-- `get_top_activated`, `spread_activation` with binding nodes, and `bind_and_query`.
use engram_core.Prelude.{
  take, ℕ, zero, suc, ◌+◌, List, [], ◌∷◌, Bool, true, false, ◌&&◌, not, none, some, ltb, ◌==◌,
  if◌then◌else◌, ℤ, pos, in_range,
}
use engram_core.Prelude.Float.{Float}
use engram_core.Neuromod.{NeuromodState}
use engram_core.Graph.Node.{Node, Edge, add_voltage, edge_temporal, tier_l1, tier_l2, tier_l3}
use engram_core.Graph.Arena.{Graph}
use engram_core.Graph.Chain.{modify}
use engram_core.Graph.Spread.{
  Call, cutoff, propagated, activation_of, set_activation, raise_activation, spread_typed,
  max_reasoning_depth, spread_fanout_cap,
}

module _ (F : Float) where
  -- The search for `pos` and the shift of `get_top_activated`.
  unfoldable pub insert_rank : ℕ × F.Carrier → List (ℕ × F.Carrier) → List (ℕ × F.Carrier)
  insert_rank x [] = x ∷ []
  insert_rank x (y ∷ ys) = if F.ltb y.1 x.1 then x ∷ y ∷ ys else y ∷ insert_rank x ys

module _ {F : Float} where
  -- A pass over the nodes below `node_count`, each by itself.
  unfoldable pub each_node : (Node F → Node F) → Graph F → Graph F
  each_node f g = record g {
    cortex_memory = λ i. if ltb i g.node_count then f (g.cortex_memory i) else g.cortex_memory i;
  }

  unfoldable pub clear_node : Node F → Node F
  clear_node n =
      if n.alive && not n.clamped
      then record n { activation = F.lit 0 1; fired_this_query = false }
      else n

  unfoldable pub clear_activation : Graph F → Graph F
  unfolding each_node clear_node
  clear_activation g = each_node clear_node g

  -- The tiers' factors: 0.5 ^ (1 / 20) and 0.5 ^ (1 / 600), computed by `std::pow`.
  unfoldable pub decay_factor : F.Carrier → F.Carrier → F.Carrier → Node F → F.Carrier
  decay_factor decay_rate decay_l1 decay_l2 n =
      if n.memory_tier == tier_l1
      then decay_l1
      else if n.memory_tier == tier_l2
      then decay_l2
      else decay_rate

  unfoldable pub tick_node : NeuromodState F → F.Carrier → F.Carrier → F.Carrier → Node F → Node F
  unfolding decay_factor
  tick_node m decay_rate decay_l1 decay_l2 n =
      let next = F.mul n.activation (decay_factor decay_rate decay_l1 decay_l2 n) in
      if not n.alive
      then n
      else if n.clamped
      then record n { activation = F.lit 1 1 }
      else if n.memory_tier == tier_l3
      then n
      else record n { activation = if F.ltb next (cutoff F m) then F.lit 0 1 else next }

  unfoldable pub tick : NeuromodState F → F.Carrier → F.Carrier → F.Carrier → Graph F → Graph F
  unfolding each_node tick_node
  tick m decay_rate decay_l1 decay_l2 g = each_node (tick_node m decay_rate decay_l1 decay_l2) g

  abbrev pub is_candidate : NeuromodState F → Node F → Bool
  is_candidate m n = n.alive && not (F.leb n.activation (cutoff F m))

  -- `top` holds the first `count` entries of the two output arrays; entries past `max_n` fall off.
  unfoldable pub top_loop :
      NeuromodState F → Graph F → ℕ → ℕ → ℕ → List (ℕ × F.Carrier) → List (ℕ × F.Carrier)
  unfolding insert_rank
  top_loop m g max_n zero i top = top
  top_loop m g max_n (suc rest) i top = top_loop m g max_n rest (i + 1) (
      if is_candidate m (g.cortex_memory i)
      then take max_n (insert_rank F (i, activation_of g i) top)
      else top)

  unfoldable pub get_top_activated : NeuromodState F → ℕ → Graph F → List (ℕ × F.Carrier)
  unfolding top_loop
  get_top_activated m max_n g = top_loop m g max_n g.node_count 0 []

  -- The second loop of `bind_and_query`.
  unfoldable pub spread_from_all : NeuromodState F → ℕ → List (ℕ × F.Carrier) → Graph F → Graph F
  spread_from_all m query [] g = g
  spread_from_all m query ((i, v) ∷ rest) g =
      spread_from_all m query rest (spread_typed m query (pos i) v g).0

  unfoldable pub bind_and_query :
      NeuromodState F → ℤ → ℕ → ℕ → ℕ → Graph F → Graph F × List (ℕ × F.Carrier)
  unfolding clear_activation get_top_activated spread_from_all
  bind_and_query m seed bind_type query_type max_results g =
      let bound = (spread_typed m bind_type seed (F.lit 1 1) (clear_activation g)).0 in
      let h =
        spread_from_all m query_type (get_top_activated m 64 bound) (clear_activation bound) in
      (h, get_top_activated m max_results h)

  -- The inner loop of `spread_activation` at a binding node that has fired already.
  unfoldable pub refresh_loop : F.Carrier → List (Edge F) → Graph F → Graph F
  unfolding raise_activation
  refresh_loop act [] g = g
  refresh_loop act (e ∷ es) g =
      let sp = propagated F act e.weight in
      refresh_loop act es (elim (in_range g.node_count e.target) [
        | none ↦ g
        | some t ↦ if (g.cortex_memory t).is_binding_node then g else raise_activation t sp g
      ])

  unfoldable pub mark_fired : ℕ → Graph F → Graph F
  unfolding modify
  mark_fired i g = modify i (λ n. record n { fired_this_query = true }) g

  unfoldable pub activation_loop : Call F → F.Carrier → List (Edge F) → Graph F → ℕ → Graph F × ℕ
  unfolding add_voltage modify mark_fired refresh_loop set_activation
  activation_loop call strength [] g activated = (g, activated)
  activation_loop call strength (e ∷ es) g activated =
      let prop = propagated F strength e.weight in
      let skip = activation_loop call strength es g activated in
      elim (in_range g.node_count e.target) [
        | none ↦ skip
        | some t ↦
            let spiked = modify t (add_voltage prop) g in
            let act = activation_of spiked t in
            let fired = (g.cortex_memory t).fired_this_query in
            let (h, n) = call e.target act (mark_fired t spiked) in
            let fire = activation_loop call strength es h (activated + n) in
            let refresh =
              activation_loop call strength es
                (refresh_loop act (take spread_fanout_cap (spiked.cortex_memory t).edges) spiked)
                activated in
            let keep = activation_loop call strength es spiked activated in
            let (h', n') = call e.target prop (set_activation t prop g) in
            let visit = activation_loop call strength es h' (activated + n') in
            if (g.cortex_memory t).is_binding_node
            then (if e.kind == edge_temporal
                then (if F.ltb (F.lit 15 10) act && not fired
                    then fire
                    else if fired
                    then refresh
                    else keep)
                else skip)
            else if F.ltb (activation_of g t) prop
            then visit
            else skip
      ]

  -- `spread_activation`; only the call at depth 0 stores the source's own activation.
  unfoldable pub spread_rounds : NeuromodState F → ℕ → Bool → Call F
  unfolding activation_loop raise_activation
  spread_rounds m zero outermost source strength g = (g, 0)
  spread_rounds m (suc rounds) outermost source strength g = elim (in_range g.node_count source) [
    | none ↦ (g, 0)
    | some s ↦
        if F.ltb strength (cutoff F m)
        then (g, 0)
        else activation_loop (spread_rounds m rounds false) strength
            (take spread_fanout_cap (g.cortex_memory s).edges)
            (if outermost then raise_activation s strength g else g) 1
  ]

  unfoldable pub spread_activation : NeuromodState F → Call F
  unfolding spread_rounds
  spread_activation m = spread_rounds m max_reasoning_depth true
