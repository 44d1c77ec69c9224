-- ===== src/GoalGate.antt =====
-- The goal pursuit of the daemon (src/fpsan_live_core.cpp, "5D. Goal Pursuit"): the motor chain of a goal is
-- collected, screened by the disk policy and by ShadowBrain, and then posted to the motor cortex.
pub mod Policy
pub mod Screened
pub mod Gate
pub mod Endless
use engram_core.Prelude.{
  ℕ, zero, suc, ◌+◌, ◌-◌, List, [], ◌∷◌, ◌++◌, map, Bool, true, false, ◌&&◌, ◌||◌, not, Option,
  none, some, ltb, leb, ◌==◌, if◌then◌else◌, ℤ, pos, negsuc, minus_one, in_range, length, Text,
  codes,
}
use mathlib.Core.Option
use engram_core.Prelude.Float.{Float}
use engram_core.Neuromod.{NeuromodState}
use engram_core.Graph.Node.{Node, Edge, MotorAction, edge_implemented_by, edge_sequence}
use engram_core.Graph.Arena.{Graph}
use engram_core.Motor.{motor_type_string, motor_launch_app}
use engram_core.Planner.{ShadowBrain, mirror, is_safe, max_motor_chain}

abbrev pub motor_http_get : ℕ
motor_http_get = 10

-- `std::tolower` of a byte in the C locale.
abbrev pub to_lower : ℕ → ℕ
to_lower c = if leb b'A' c && leb c b'Z' then c + 32 else c

-- The actions whose text is screened.
abbrev pub has_text : MotorAction → Bool
has_text a = a.kind == motor_type_string || (a.kind == motor_launch_app || a.kind == motor_http_get)

-- The copy of one text: `room` is `cap - 1` less the bytes written, and what is left of it comes back.
unfoldable pub copy_lower : ℕ → Text → Text × ℕ
copy_lower room [] = ([], room)
copy_lower zero (c ∷ t) = ([], zero)
copy_lower (suc room) (c ∷ t) = let (out, left) = copy_lower room t in (to_lower c ∷ out, left)

unfoldable pub blob_loop : ℕ → List MotorAction → Text
unfolding copy_lower
blob_loop room [] = []
blob_loop room (a ∷ actions) =
    let (out, left) = copy_lower room a.text in
    let skip = blob_loop room actions in
    let last = blob_loop left actions in
    let spaced = blob_loop (left - 1) actions in
    if has_text a then (if ltb 0 left then out ++ (b' ' ∷ spaced) else out ++ last) else skip

-- `motor_chain_text_blob_lower` with a buffer of `cap` bytes.
unfoldable pub motor_chain_text_blob_lower : List MotorAction → ℕ → Text
unfolding blob_loop
motor_chain_text_blob_lower actions cap = if cap == 0 then [] else blob_loop (cap - 1) actions

unfoldable pub starts_with : Text → Text → Bool
starts_with [] hay = true
starts_with (c ∷ cs) [] = false
starts_with (c ∷ cs) (d ∷ ds) = if c == d then starts_with cs ds else false

-- `strstr(hay, needle) != nullptr`.
unfoldable pub contains : Text → Text → Bool
unfolding starts_with
contains needle [] = starts_with needle []
contains needle (c ∷ hay) = starts_with needle (c ∷ hay) || contains needle hay

unfoldable pub disk_ops_policy_blocks_lower : Text → Bool
unfolding contains
disk_ops_policy_blocks_lower [] = false
disk_ops_policy_blocks_lower (c ∷ rest) =
    let blob = c ∷ rest in
    contains (codes "diskpart") blob
    || (contains (codes "cipher") blob && contains (codes "/w") blob
        || (contains (codes "format") blob
              && (contains (codes "c:") blob || contains (codes "c :") blob)
            || (contains (codes "del ") blob
                && (contains (codes "\\\\") blob
                    || (contains (codes "c:\\") blob || contains (codes "c:/") blob)))))

unfoldable pub user_goal_text_disk_policy_blocks : Text → Bool
unfolding copy_lower disk_ops_policy_blocks_lower
user_goal_text_disk_policy_blocks text = disk_ops_policy_blocks_lower (copy_lower 511 text).0

abbrev pub blob_capacity : ℕ
blob_capacity = 2048

module _ {F : Float} where
  -- The first EDGE_SEQUENCE edge of a node, -1 if there is none.
  unfoldable pub first_sequence : List (Edge F) → ℤ
  first_sequence [] = minus_one
  first_sequence (e ∷ es) = if e.kind == edge_sequence then e.target else first_sequence es

  -- The inner loop of `collect_goal_motor_chain_flat`: `room` is `max_chain` less the length so far.
  unfoldable pub flat_walk : Graph F → ℕ → ℤ → List ℕ
  unfolding first_sequence
  flat_walk g zero current = []
  flat_walk g (suc room) (negsuc _) = []
  flat_walk g (suc room) (pos c) =
      let rest = flat_walk g room (first_sequence (g.cortex_memory c).edges) in
      if (g.cortex_memory c).is_motor_node then c ∷ rest else []

  unfoldable pub flat_edges : Graph F → ℕ → List (Edge F) → List ℕ
  unfolding flat_walk
  flat_edges g room [] = []
  flat_edges g zero (e ∷ es) = []
  flat_edges g (suc room) (e ∷ es) =
      let skip = flat_edges g (suc room) es in
      let walk = flat_walk g (suc room) e.target in
      let more = flat_edges g (suc room - length walk) es in
      if e.kind == edge_implemented_by
      then (elim (in_range g.node_count e.target) [ none ↦ skip | some t ↦ walk ++ more ])
      else skip

  unfoldable pub collect_goal_motor_chain_flat : Graph F → ℤ → ℕ → List ℕ
  unfolding flat_edges
  collect_goal_motor_chain_flat g concept max_chain = elim (in_range g.node_count concept) [
    | none ↦ []
    | some c ↦ flat_edges g max_chain (g.cortex_memory c).edges
  ]

  abbrev pub action_of : Graph F → ℕ → MotorAction
  action_of g i = (g.cortex_memory i).motor_action

  unfoldable pub motor_chain_policy_blocks_disk_ops : Graph F → List ℕ → Bool
  unfolding motor_chain_text_blob_lower disk_ops_policy_blocks_lower
  motor_chain_policy_blocks_disk_ops g chain =
      disk_ops_policy_blocks_lower
        (motor_chain_text_blob_lower (map (action_of g) chain) blob_capacity)

  -- The inner loop of the execution: the actions that are queued, none if `fuel` rounds are too few.
  unfoldable pub run_walk : Graph F → ℕ → ℤ → Option (List MotorAction)
  unfolding first_sequence
  run_walk g zero current = none
  run_walk g (suc fuel) (negsuc _) = some []
  run_walk g (suc fuel) (pos c) =
      let rest = run_walk g fuel (first_sequence (g.cortex_memory c).edges) in
      if (g.cortex_memory c).is_motor_node then Option.map (◌∷◌ (action_of g c)) rest else some []

  -- The outer loop: the actions, and whether `executed` is set.
  unfoldable pub run_edges : Graph F → ℕ → List (Edge F) → Option (List MotorAction × Bool)
  unfolding run_walk
  run_edges g fuel [] = some ([], false)
  run_edges g fuel (e ∷ es) =
      let rest = run_edges g fuel es in
      if e.kind == edge_implemented_by
      then (elim (run_walk g fuel e.target) [
        | none ↦ none
        | some acts ↦ Option.map (λ r. (acts ++ r.0, true)) rest
      ])
      else rest

-- What a goal step does: it blocks the plan, or posts these actions, with `executed`.
pub data Outcome : Type 0 where
  vetoed : Outcome
  posted : List MotorAction → Bool → Outcome

module _ {F : Float} where
  -- The branch for `motor_concept_N`, with a fresh shadow over the allocator's memory.
  unfoldable pub goal_step :
      (ℕ → Node F) → (ℕ → ℤ) → ShadowBrain F → NeuromodState F → ℕ → ℕ → Graph F → Option Outcome
  goal_step raw raw_next sb m fuel target g =
      let chain = collect_goal_motor_chain_flat g (pos target) max_motor_chain in
      let safe = (is_safe m (pos target) (map pos chain) (some g) (mirror raw raw_next g 0 sb)).1 in
      let blocked = motor_chain_policy_blocks_disk_ops g chain || not safe in
      if not (length chain == 0) && blocked
      then some Outcome.vetoed
      else Option.map (λ r. Outcome.posted r.0 r.1)
          (run_edges g fuel (g.cortex_memory target).edges)
