-- ===== src/Sequencer.antt =====
-- Sequencer (src/core/fpsan_sequencer.h): goals are clamped nodes, which feed the graph on each tick.
pub mod Held
pub mod Goal
use engram_core.Prelude.{
  ℕ, zero, suc, ◌+◌, List, [], ◌∷◌, Bool, true, false, Option, none, some, if◌then◌else◌, ℤ, pos,
  negsuc, minus_one, in_range,
}
use engram_core.Prelude.Float.{Float}
use engram_core.Neuromod.{NeuromodState}
use engram_core.Graph.Node.{Node}
use engram_core.Graph.Arena.{Graph}
use engram_core.Graph.Chain.{modify}
use engram_core.Graph.Spread.{activation_of}
use engram_core.Graph.Activity.{spread_activation}
use engram_core.Graph.Activity

module _ {F : Float} where
  unfoldable pub set_goal : ℤ → Graph F → Graph F
  set_goal cluster_id g = elim (in_range g.node_count cluster_id) [
    | none ↦ g
    | some i ↦ modify i (λ n. record n { clamped = true; activation = F.lit 1 1 }) g
  ]

  unfoldable pub clear_goal : ℤ → Graph F → Graph F
  clear_goal cluster_id g = elim (in_range g.node_count cluster_id) [
    | none ↦ g
    | some i ↦ modify i (λ n. record n { clamped = false }) g
  ]

  -- Each clamped node among the `n` from `i` on spreads.
  unfoldable pub feed_goals : NeuromodState F → ℕ → ℕ → Graph F → Graph F
  feed_goals m i zero g = g
  feed_goals m i (suc n) g =
      feed_goals m (i + 1) n
        (if (g.cortex_memory i).clamped then (spread_activation m (pos i) (F.lit 1 1) g).0 else g)

  unfoldable pub feed_spike : NeuromodState F → ℤ → F.Carrier → Graph F → Graph F
  feed_spike m (negsuc _) voltage g = g
  feed_spike m (pos id) voltage g = (spread_activation m (pos id) voltage g).0

  -- `Sequencer::tick`, with the factors of the two tiers that `ClusterGraph::tick` computes.
  unfoldable pub tick : NeuromodState F → F.Carrier → F.Carrier → ℤ → F.Carrier → Graph F → Graph F
  tick m decay_l1 decay_l2 spike voltage g =
      let fed = feed_spike m spike voltage g in
      Activity.tick m (F.lit 9 10) decay_l1 decay_l2 (feed_goals m 0 fed.node_count fed)

  unfoldable pub select_loop : Graph F → List ℕ → ℤ × F.Carrier → ℤ × F.Carrier
  select_loop g [] best = best
  select_loop g (cand ∷ candidates) best =
      select_loop g candidates
        (if F.ltb best.1 (activation_of g cand) then (pos cand, activation_of g cand) else best)

  unfoldable pub select_action : Graph F → List ℕ → ℤ
  select_action g candidates =
      let (best_action, best_voltage) = select_loop g candidates (minus_one, F.lit 0 1) in
      if F.ltb (F.lit 5 10) best_voltage then best_action else minus_one
