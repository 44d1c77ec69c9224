-- ===== src/Graph/Node.antt =====
-- ClusterNode of src/core/cluster_graph.h: its record, and each of its operations under its lock.
use engram_core.Prelude.{
  ℕ, ◌+◌, ◌-◌, List, [], ◌∷◌, ◌++◌, Bool, true, false, ◌&&◌, not, Option, none, some, reverse, ltb,
  ◌==◌, if◌then◌else◌, length, get_elem?, set, filterb, ℤ, pos, ◌==ℤ◌,
}
use mathlib.Core.Option
use engram_core.Prelude.Float.{Float, fmin}

-- `EdgeType` and `EdgeProvenance` are enums over `uint8_t`, which hold any byte: a number here.
abbrev pub max_fanout : ℕ
max_fanout = 150

abbrev pub edge_temporal : ℕ
edge_temporal = 0

abbrev pub edge_causes : ℕ
edge_causes = 4

abbrev pub edge_sequence : ℕ
edge_sequence = 5

abbrev pub edge_implemented_by : ℕ
edge_implemented_by = 14

abbrev pub edge_requires : ℕ
edge_requires = 15

abbrev pub edge_analogy : ℕ
edge_analogy = 16

abbrev pub edge_episodic_link : ℕ
edge_episodic_link = 19

abbrev pub edge_ensemble_link : ℕ
edge_ensemble_link = 21

abbrev pub prov_unknown : ℕ
prov_unknown = 0

abbrev pub prov_user : ℕ
prov_user = 1

abbrev pub tier_transient : ℕ
tier_transient = 0

abbrev pub tier_l1 : ℕ
tier_l1 = 1

abbrev pub tier_l2 : ℕ
tier_l2 = 2

abbrev pub tier_l3 : ℕ
tier_l3 = 3

-- `MotorAction` of src/core/fpsan_motor.h: the graph moves it and never looks into it.
pub record MotorAction : Type 0 where
  pub kind : ℕ
  pub vkey : ℕ
  pub modifier : ℕ
  pub text : List ℕ
  pub x : ℤ
  pub y : ℤ
  pub delay_ms : ℕ

abbrev pub no_action : MotorAction
no_action = record {
  kind = 0;
  vkey = 0;
  modifier = 0;
  text = [];
  x = pos 0;
  y = pos 0;
  delay_ms = 0;
}

module _ (F : Float) where
  open F use {Carrier, add, mul, lit}

  pub record Edge : Type 0 where
    pub target : ℤ
    pub weight : Carrier
    pub co_occur_count : ℕ
    pub kind : ℕ
    pub provenance : ℕ

  -- `edges` holds the slots below `edge_count` of the array, so its length is the count.
  pub record Node : Type 0 where
    pub activation : Carrier
    pub alive : Bool
    pub clamped : Bool
    pub is_binding_node : Bool
    pub fired_this_query : Bool
    pub is_motor_node : Bool
    pub memory_tier : ℕ
    pub motor_action : MotorAction
    pub edges : List Edge
    pub inverse_edges : List Edge

module _ {F : Float} where
  open F use {Carrier, add, mul, lit}

  unfoldable pub init_node : Node F
  init_node = record {
    activation = lit 0 1;
    alive = true;
    clamped = false;
    is_binding_node = false;
    fired_this_query = false;
    is_motor_node = false;
    memory_tier = tier_transient;
    motor_action = no_action;
    edges = [];
    inverse_edges = [];
  }

  unfoldable pub add_voltage : Carrier → Node F → Node F
  add_voltage dv n = record n { activation = add n.activation dv }

  -- The loop of `_sort_edges`: the edges already placed stand last to first, and the key goes
  -- past those of a smaller weight.
  unfoldable pub sift : Edge F → List (Edge F) → List (Edge F)
  sift key [] = key ∷ []
  sift key (e ∷ placed) =
      if F.ltb e.weight key.weight then e ∷ sift key placed else key ∷ e ∷ placed

  unfoldable pub sort_loop : List (Edge F) → List (Edge F) → List (Edge F)
  sort_loop placed [] = placed
  sort_loop placed (e ∷ es) = sort_loop (sift e placed) es

  -- `_sort_edges` and `_sort_inv_edges`.
  unfoldable pub sort_edges : List (Edge F) → List (Edge F)
  sort_edges es = reverse (sort_loop [] es)

  abbrev pub matches : ℤ → ℕ → Edge F → Bool
  matches t etype e = ◌==ℤ◌ e.target t && (e.kind == etype)

  -- A repeated edge gains half of the strength, up to 5.
  unfoldable pub reinforce : Carrier → ℕ → Edge F → Edge F
  reinforce strength prov e = record e {
    weight = fmin F (add e.weight (mul strength (lit 1 2))) (lit 5 1);
    co_occur_count = e.co_occur_count + 1;
    provenance = if not (prov == prov_unknown) then prov else e.provenance;
  }

  -- The search loop of `add_edge`: none if no edge of that target and type is there.
  unfoldable pub reinforce_first : ℤ → ℕ → Carrier → ℕ → List (Edge F) → Option (List (Edge F))
  reinforce_first t etype strength prov [] = none
  reinforce_first t etype strength prov (e ∷ es) =
      if matches t etype e
      then some (reinforce strength prov e ∷ es)
      else Option.map (◌∷◌ e) (reinforce_first t etype strength prov es)

  unfoldable pub new_edge : ℤ → Carrier → ℕ → ℕ → Edge F
  new_edge t strength etype prov = record {
    target = t;
    weight = strength;
    co_occur_count = 1;
    kind = etype;
    provenance = prov;
  }

  -- The last edge, if it is weaker, gives way.
  unfoldable pub replace_last : Edge F → List (Edge F) → List (Edge F)
  replace_last new es = elim (get_elem? es (length es - 1)) [
    | none ↦ es
    | some last ↦ if F.ltb last.weight new.weight then set es (length es - 1) new else es
  ]

  unfoldable pub insert_edge : Edge F → List (Edge F) → List (Edge F)
  unfolding replace_last
  insert_edge new es = if ltb (length es) max_fanout then es ++ (new ∷ []) else replace_last new es

  unfoldable pub insert_or_reinforce : ℤ → Carrier → ℕ → ℕ → List (Edge F) → List (Edge F)
  unfolding insert_edge new_edge reinforce_first reinforce
  insert_or_reinforce t strength etype prov es = elim (reinforce_first t etype strength prov es) [
    | some es' ↦ es'
    | none ↦ insert_edge (new_edge t strength etype prov) es
  ]

  -- `add_edge` on the edge array; `add_inverse_edge` is the same on its own, with no provenance.
  unfoldable pub add_to : ℤ → Carrier → ℕ → ℕ → List (Edge F) → List (Edge F)
  add_to t strength etype prov es = sort_edges (insert_or_reinforce t strength etype prov es)

  unfoldable pub add_edge : ℤ → Carrier → ℕ → ℕ → Node F → Node F
  add_edge t strength etype prov n = record n { edges = add_to t strength etype prov n.edges }

  unfoldable pub add_inverse_edge : ℤ → Carrier → ℕ → Node F → Node F
  add_inverse_edge t strength etype n = record n {
    inverse_edges = add_to t strength etype prov_unknown n.inverse_edges;
  }

  unfoldable pub count_edges_of_type : ℕ → Node F → ℕ
  count_edges_of_type etype n = length (filterb (λ e. e.kind == etype) n.edges)

  abbrev pub survives : Edge F → Bool
  survives e = F.leb (lit 5 100) e.weight

  unfoldable pub prune : Node F → Node F
  prune n = record n {
    edges = filterb survives n.edges;
    inverse_edges = filterb survives n.inverse_edges;
  }
