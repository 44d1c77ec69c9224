-- ===== src/Tests/Planning.antt =====
-- Planning, prediction and the slots of the graph (src/core/cluster_graph.h, src/core/fpsan_world_model.h)
-- at concrete inputs.
use engram_core.Prelude.{◌==◌, ℕ, ◌≡◌, refl, List, [], ◌∷◌, true, some, arith, minus_one}
use engram_core.Graph.Node.{init_node}
use engram_core.Graph.Arena.{init, kill}
use engram_core.Graph.FreeList.{IsArena}
use engram_core.Graph.Lifetime.{Use, Reach}
use engram_core.Graph.Accounting.{Balanced, slots_conserved}
use engram_core.Graph.Plan.{
  plan, plan_path, plan_path_typed, scan_edges, search_loop, start_search, mark, enqueue,
  trace_back,
}
use engram_core.Graph.PlanSound.{Answer, plan_path-Answer}
use engram_core.Tests.Graph.{linked, blank, booted}
use engram_core.Tests.Activity.{linked_graph}

plan_path-Answer_example :
    Answer (λ e. true) linked_graph 1 5 3 (plan_path 1 5 3 linked_graph)
    × Answer (λ e. e.kind == 4) linked_graph 1 5 3 (plan_path_typed 4 1 5 3 linked_graph)
plan_path-Answer_example = plan_path-Answer 1 5 3 4 linked_graph (omega arith)

plan_path_runs : plan_path 1 5 3 linked_graph ≡ some (5 ∷ [])
unfolding plan_path plan search_loop scan_edges start_search mark enqueue trace_back
plan_path_runs = refl

slots_conserved_example : (xs : List ℕ) × IsArena (kill 2 booted) xs × Balanced (kill 2 booted) xs
slots_conserved_example =
    slots_conserved (λ i. linked) (λ i. minus_one) 4 blank
      (Reach.next Reach.here
        (Use.killed 2 (unfold init in omega arith) (unfold init init_node in refl)))
