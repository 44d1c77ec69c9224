-- ===== src/Graph/Arena.antt =====
-- ClusterGraph of src/core/cluster_graph.h: the flat arena, `init`, `spawn`, `kill` and the voltage proxy.
-- A call runs alone here, so each compare-and-swap succeeds at once; Graph/Aba has two threads.
use engram_core.Prelude.{
  ℕ, ◌+◌, ◌-◌, ◌*◌, ◌/◌, ◌%◌, ◌^◌, List, [], Bool, true, false, ◌&&◌, not, Option, none, some, ltb,
  ◌==◌, if◌then◌else◌, update, ℤ, pos, negsuc, minus_one,
}
use engram_core.Prelude.Float.{Float}
use engram_core.Graph.Node.{Node, init_node, add_voltage}

abbrev pub cortex_capacity : ℕ
cortex_capacity = 262144

abbrev pub free_stack_empty : ℕ
free_stack_empty = 2 ^ 64 - 1

-- `free_head` packs a tag in its upper half and an id in its lower half.
abbrev pub pack : ℕ → ℕ → ℕ
pack tag id = tag % 2 ^ 32 * 2 ^ 32 + id

abbrev pub tag_of : ℕ → ℕ
tag_of head = head / 2 ^ 32

abbrev pub id_of : ℕ → ℕ
id_of head = head % 2 ^ 32

-- `new_head` of `spawn`, for the id that lies below the top.
abbrev pub head_below : ℕ → ℤ → ℕ
head_below head (pos next) = pack (tag_of head + 1) next
head_below head (negsuc _) = free_stack_empty

-- `old_top` of `kill`.
abbrev pub top_of : ℕ → ℤ
top_of head = if head == free_stack_empty then minus_one else pos (id_of head)

-- `active_chain` up to `chain_len` is the list `chain`. `san_bound` says that `san_post` is set.
pub record Graph (F : Float) : Type 0 where
  pub cortex_memory : ℕ → Node F
  pub node_count : ℕ
  pub free_next : ℕ → ℤ
  pub free_head : ℕ
  pub last_fired : ℤ
  pub chain : List ℤ
  pub san_bound : Bool
  pub san_threshold : F.Carrier

module _ {F : Float} where
  -- `init` over the memory that the allocator returns.
  unfoldable pub init : (ℕ → Node F) → (ℕ → ℤ) → ℕ → Graph F → Graph F
  init raw raw_next initial_nodes g =
      let actual = if ltb initial_nodes cortex_capacity then initial_nodes else cortex_capacity in
      record g {
        cortex_memory = λ i. if ltb i actual then init_node else raw i;
        node_count = actual;
        free_next = λ i. if ltb i actual then minus_one else raw_next i;
        free_head = free_stack_empty;
        last_fired = minus_one;
        chain = [];
      }

  -- `spawn`: the new graph and the id, -1 where the arena is full.
  unfoldable pub spawn : Graph F → Graph F × ℤ
  spawn g =
      if not (g.free_head == free_stack_empty)
      then (
        record g {
          free_head = head_below g.free_head (g.free_next (id_of g.free_head));
          cortex_memory = update g.cortex_memory (id_of g.free_head) init_node;
        },
        pos (id_of g.free_head),
      )
      else if ltb g.node_count cortex_capacity
      then (
        record g {
          node_count = g.node_count + 1;
          cortex_memory = update g.cortex_memory g.node_count init_node;
          free_next = update g.free_next g.node_count minus_one;
        },
        pos g.node_count,
      )
      else (g, minus_one)

  -- The two halves of that loop's round where other threads run between them: the loads of the
  -- head and of the id below it, and the compare-and-swap with what was loaded.
  unfoldable pub load_top : Graph F → ℕ × ℤ
  load_top g = (g.free_head, g.free_next (id_of g.free_head))

  unfoldable pub swap_top : ℕ × ℤ → Graph F → Graph F × Bool
  swap_top (head, next) g =
      if g.free_head == head
      then (
        record g {
          free_head = head_below head next;
          cortex_memory = update g.cortex_memory (id_of head) init_node;
        },
        true,
      )
      else (g, false)

  unfoldable pub dead_node : Node F → Node F
  dead_node n = record n { alive = false; edges = []; inverse_edges = [] }

  unfoldable pub kill : ℕ → Graph F → Graph F
  unfolding dead_node
  kill id g = record g {
    cortex_memory = update g.cortex_memory id (dead_node (g.cortex_memory id));
    free_next = update g.free_next id (top_of g.free_head);
    free_head = pack (tag_of g.free_head + 1) id;
  }

  -- `add_voltage_to`: the new graph, and the voltage that is posted to the scheduler, if any.
  unfoldable pub add_voltage_to : ℕ → F.Carrier → Graph F → Graph F × Option F.Carrier
  unfolding add_voltage
  add_voltage_to id dv g =
      let before = (g.cortex_memory id).activation in
      let n = add_voltage dv (g.cortex_memory id) in
      let g' = record g { cortex_memory = update g.cortex_memory id n } in
      if g.san_bound && (F.ltb before g.san_threshold && F.leb g.san_threshold n.activation)
      then (g', some n.activation)
      else (g', none)

  unfoldable pub bind_san_poster : F.Carrier → Graph F → Graph F
  bind_san_poster threshold g = record g { san_bound = true; san_threshold = threshold }
