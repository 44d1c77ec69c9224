-- ===== src/Tests/Graph.antt =====
-- The graph (src/core/cluster_graph.h) at concrete inputs, over an arithmetic of thousandths.
use engram_core.Prelude.{
  ℕ, ◌<◌, ◌≡◌, refl, List, [], ◌∷◌, true, false, arith, ℤ, pos, negsuc, minus_one, countb, find,
  ◌≤◌,
}
use engram_core.Prelude.Float.{thousandths, thousandths-IsOrder}
use engram_core.Graph.Node.{
  Node, Edge, init_node, add_edge, add_inverse_edge, add_to, matches, insert_or_reinforce,
  sort_edges, sort_loop, sift,
}
use engram_core.Graph.Edges.{IsSound}
use engram_core.Graph.AddEdge.{IsSoundNode, add_edge-IsSoundNode}
use engram_core.Graph.Lookup.{expected_edge, find-add_to}
use engram_core.Graph.Arena.{Graph, init, spawn, kill, load_top, swap_top, cortex_capacity}
use engram_core.Graph.FreeList.{IsArena, Spawned, init-IsArena, spawn-Spawned}
use engram_core.Graph.Lifetime.{Use, Reach, spawn_no_double}
use engram_core.Graph.Aba.{Race, before_race, meanwhile, aba}

abbrev edge : ℕ → ℕ → Edge thousandths
edge t w = record { target = pos t; weight = pos w; co_occur_count = 1; kind = 4; provenance = 1 }

abbrev two_edges : List (Edge thousandths)
two_edges = edge 3 900 ∷ edge 5 40 ∷ []

abbrev pub linked : Node thousandths
linked = record {
  activation = pos 0;
  alive = true;
  clamped = false;
  is_binding_node = false;
  fired_this_query = false;
  is_motor_node = false;
  memory_tier = 0;
  motor_action = record {
    kind = 0;
    vkey = 0;
    modifier = 0;
    text = [];
    x = pos 0;
    y = pos 0;
    delay_ms = 0;
  };
  edges = two_edges;
  inverse_edges = [];
}

two_edges-distinct : (t : ℤ) (k : ℕ) → countb (matches t k) two_edges ≤ 1
two_edges-distinct (pos t) k = ground arith
two_edges-distinct (negsuc t) k = ground arith

two_edges-IsSound : IsSound two_edges
two_edges-IsSound = record {
  bounded = omega arith;
  sorted = ((refl, tt), (tt, tt));
  distinct = two_edges-distinct;
}

empty-IsSound : IsSound {F = thousandths} []
empty-IsSound = record { bounded = omega arith; sorted = tt; distinct = λ t k. omega arith }

pub linked-IsSoundNode : IsSoundNode linked
linked-IsSoundNode = record { forward = two_edges-IsSound; backward = empty-IsSound }

add_edge-IsSoundNode_example :
    IsSoundNode (add_edge (pos 5) (pos 2000) 4 1 linked)
    × IsSoundNode (add_inverse_edge (pos 5) (pos 2000) 4 linked)
add_edge-IsSoundNode_example =
    add_edge-IsSoundNode thousandths-IsOrder (pos 5) (pos 2000) 4 1 linked linked-IsSoundNode

find-add_to_example :
    find (matches (pos 5) 4) (add_to (pos 5) (pos 2000) 4 1 two_edges)
    ≡ expected_edge (pos 5) (pos 2000) 4 1 two_edges
find-add_to_example = find-add_to (pos 5) (pos 2000) 4 1 two_edges two_edges-IsSound

-- The weaker edge overtakes the stronger one.
add_to_sorts :
    add_to (pos 5) (pos 2000) 4 1 two_edges
    ≡ record (edge 5 1040) { co_occur_count = 2 } ∷ edge 3 900 ∷ []
unfolding add_to insert_or_reinforce sort_edges sort_loop sift
add_to_sorts = refl

abbrev pub blank : Graph thousandths
blank = record {
  cortex_memory = λ i. linked;
  node_count = 0;
  free_next = λ i. pos 0;
  free_head = 0;
  last_fired = pos 0;
  chain = [];
  san_bound = false;
  san_threshold = pos 1000000;
}

abbrev pub booted : Graph thousandths
booted = init (λ i. linked) (λ i. minus_one) 4 blank

booted-IsArena : IsArena booted []
booted-IsArena = init-IsArena (λ i. linked) (λ i. minus_one) 4 blank

spawn-Spawned_example : Spawned booted [] (spawn booted)
spawn-Spawned_example = spawn-Spawned booted [] booted-IsArena

spawn_no_double_example :
    (2 < (kill 2 booted).node_count → ((kill 2 booted).cortex_memory 2).alive ≡ false)
    × (2 < cortex_capacity)
    × (((spawn (kill 2 booted)).0.cortex_memory 2).alive ≡ true)
spawn_no_double_example =
    spawn_no_double (λ i. linked) (λ i. minus_one) 4 blank (kill 2 booted) 2
      (Reach.next Reach.here
        (Use.killed 2 (unfold init in omega arith) (unfold init init_node in refl)))
      (unfold init init_node kill spawn in refl)

booted-Race : Race booted 0 1 2
unfolding init init_node
booted-Race = record {
  empty = booted-IsArena;
  a_in = omega arith;
  b_in = omega arith;
  c_in = omega arith;
  a_live = refl;
  b_live = refl;
  c_live = refl;
  ab = omega arith;
  ac = omega arith;
  bc = omega arith;
}

aba_example :
    let (late, done) = swap_top (load_top (before_race booted 0 1)) (meanwhile booted 0 1 2) in
    (done ≡ true) × ((late.cortex_memory 1).alive ≡ true) × ((spawn late).1 ≡ pos 1)
aba_example = aba booted 0 1 2 booted-Race
