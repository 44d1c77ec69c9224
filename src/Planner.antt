-- ===== src/Planner.antt =====
-- SemanticPlanner and ShadowBrain of src/core/fpsan_sandbox.h: the motor plan of a goal, and the check of
-- its preconditions before it runs.
pub mod Argmax
pub mod Plan
pub mod Veto
use engram_core.Prelude.{
  ℕ, zero, suc, List, [], ◌∷◌, ◌++◌, Bool, true, false, ◌&&◌, not, Option, none, some, ltb, ◌==◌,
  if◌then◌else◌, ℤ, pos, negsuc, minus_one, in_range, allb, countb,
}
use engram_core.Prelude.Float.{Float}
use engram_core.Neuromod.{NeuromodState}
use engram_core.Graph.Node.{
  Node, Edge, add_edge, edge_implemented_by, edge_sequence, edge_requires, prov_unknown,
}
use engram_core.Graph.Arena.{Graph, init}
use engram_core.Graph.Spread.{spread_typed, activation_of}
use engram_core.Graph.Activity.{clear_activation}

abbrev pub max_motor_chain : ℕ
max_motor_chain = 64

abbrev pub has : ℕ → List ℕ → Bool
has c out = not (countb (λ k. k == c) out == 0)

-- A round of both search loops of `collect_motor_chain`: the target of the best candidate so far,
-- and its score.
module _ (F : Float) where
  unfoldable pub keep_better : ℤ → Option F.Carrier → ℤ × F.Carrier → ℤ × F.Carrier
  keep_better t none best = best
  keep_better t (some v) best = if F.ltb best.1 v then (t, v) else best

module _ {F : Float} where
  unfoldable pub argmax :
      (Edge F → Option F.Carrier) → List (Edge F) → ℤ × F.Carrier → ℤ × F.Carrier
  unfolding keep_better
  argmax score [] best = best
  argmax score (e ∷ es) best = argmax score es (keep_better F e.target (score e) best)

  -- A candidate for the head: a motor node of the arena behind an EDGE_IMPLEMENTED_BY edge.
  unfoldable pub head_score : Graph F → Edge F → Option F.Carrier
  head_score g e =
      if e.kind == edge_implemented_by
      then (elim (in_range g.node_count e.target) [
        | none ↦ none
        | some t ↦ if (g.cortex_memory t).is_motor_node then some (activation_of g t) else none
      ])
      else none

  -- A candidate for the next one: a slot of the arena behind an EDGE_SEQUENCE edge.
  unfoldable pub next_score : Graph F → Edge F → Option F.Carrier
  next_score g e =
      if e.kind == edge_sequence
      then (elim (in_range g.node_count e.target) [ none ↦ none | some t ↦ some e.weight ])
      else none

  unfoldable pub head_of : Graph F → ℕ → ℤ × F.Carrier
  unfolding argmax head_score
  head_of g goal = argmax (head_score g) (g.cortex_memory goal).edges (minus_one, F.lit 0 1)

  unfoldable pub next_of : Graph F → ℕ → ℤ × F.Carrier
  unfolding argmax next_score
  next_of g c = argmax (next_score g) (g.cortex_memory c).edges (minus_one, F.lit 0 1)

  -- The `while` loop: `room` is `max_chain` less the length of the chain so far.
  unfoldable pub follow_sequence : Graph F → ℕ → ℤ → List ℕ → List ℕ
  follow_sequence g zero current out = out
  follow_sequence g (suc room) (negsuc _) out = out
  follow_sequence g (suc room) (pos c) out =
      let rest = follow_sequence g room (next_of g c).0 (out ++ (c ∷ [])) in
      if has c out then out else rest

  unfoldable pub collect_motor_chain : NeuromodState F → ℤ → ℕ → Graph F → Graph F × List ℕ
  unfolding head_of follow_sequence clear_activation
  collect_motor_chain m (negsuc _) max_chain g = (g, [])
  collect_motor_chain m (pos goal) max_chain g =
      let h = (spread_typed m edge_implemented_by (pos goal) (F.lit 1 1) (clear_activation g)).0 in
      (h, if max_chain == 0 then [] else follow_sequence h max_chain (head_of h goal).0 [])

  -- The edge loop of `mirror`: the edges of a node with a tenth of their weight.
  unfoldable pub mirror_edges : ℕ → List (Edge F) → Node F → Node F
  mirror_edges shadow_nc [] dst = dst
  mirror_edges shadow_nc (e ∷ es) dst =
      mirror_edges shadow_nc es (elim (in_range shadow_nc e.target) [
        | none ↦ dst
        | some t ↦ add_edge (pos t) (F.mul e.weight (F.lit 1 10)) e.kind prov_unknown dst
      ])

  unfoldable pub mirror_node : ℕ → Node F → Node F → Node F
  unfolding mirror_edges add_edge
  mirror_node shadow_nc src dst = mirror_edges shadow_nc src.edges (record dst {
    is_motor_node = src.is_motor_node;
    is_binding_node = src.is_binding_node;
    activation = F.lit 0 1;
  })

-- `mapped` says that the shadow's `cortex_memory` is not null.
pub record ShadowBrain (F : Float) : Type 0 where
  pub shadow : Graph F
  pub mapped : Bool

abbrev pub slots_mirrored : ℕ → ℕ → ℕ
slots_mirrored mnc max_nodes =
    if ltb 0 max_nodes then (if ltb max_nodes mnc then max_nodes else mnc) else mnc

module _ {F : Float} where
  -- `mirror` over the memory that the allocator returns for a first `init`.
  unfoldable pub mirror : (ℕ → Node F) → (ℕ → ℤ) → Graph F → ℕ → ShadowBrain F → ShadowBrain F
  unfolding init mirror_node
  mirror raw raw_next main max_nodes sb =
      let nc = slots_mirrored main.node_count max_nodes in
      let s = if sb.mapped then sb.shadow else init raw raw_next nc sb.shadow in
      if nc == 0 then sb else record {
        shadow = record s {
          cortex_memory = λ i.
              if ltb i nc && ltb i s.node_count && (main.cortex_memory i).alive
              then mirror_node s.node_count (main.cortex_memory i) (s.cortex_memory i)
              else s.cortex_memory i;
        };
        mapped = true;
      }

  -- The activation by which `is_safe` judges a required slot.
  unfoldable pub required_activation : Graph F → Option (Graph F) → ℕ → F.Carrier
  required_activation shadow main_ref req = elim main_ref [
    | none ↦ if ltb req shadow.node_count then activation_of shadow req else F.lit 0 1
    | some main ↦
        if ltb req main.node_count
        then activation_of main req
        else if ltb req shadow.node_count
        then activation_of shadow req
        else F.lit 0 1
  ]

  -- One round of the inner loop: false where it vetoes.
  unfoldable pub met : Graph F → Option (Graph F) → Edge F → Bool
  unfolding required_activation
  met shadow main_ref e =
      if e.kind == edge_requires
      then (elim e.target [
        | negsuc _ ↦ true
        | pos req ↦ not (F.ltb (required_activation shadow main_ref req) (F.lit 5 100))
      ])
      else true

  abbrev pub source_of : Graph F → Option (Graph F) → Graph F
  source_of shadow none = shadow
  source_of shadow (some main) = main

  unfoldable pub motor_met : Graph F → Option (Graph F) → ℤ → Bool
  unfolding met
  motor_met shadow main_ref mid =
      let source = source_of shadow main_ref in
      elim (in_range source.node_count mid) [
        | none ↦ true
        | some i ↦ allb (met shadow main_ref) (source.cortex_memory i).edges
      ]

  -- The spread in the shadow, if it has the goal.
  unfoldable pub imagine : NeuromodState F → ℤ → Graph F → Graph F
  unfolding clear_activation
  imagine m goal s = elim (in_range s.node_count goal) [
    | none ↦ s
    | some i ↦ (spread_typed m edge_implemented_by goal (F.lit 1 10) (clear_activation s)).0
  ]

  unfoldable pub is_safe :
      NeuromodState F → ℤ → List ℤ → Option (Graph F) → ShadowBrain F → ShadowBrain F × Bool
  unfolding imagine motor_met
  is_safe m goal [] main_ref sb = (sb, true)
  is_safe m goal (mid ∷ chain) main_ref sb =
      let s = imagine m goal sb.shadow in
      (record sb { shadow = s }, allb (motor_met s main_ref) (mid ∷ chain))
