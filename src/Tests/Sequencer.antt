-- ===== src/Tests/Sequencer.antt =====
-- Goals of the sequencer (src/core/fpsan_sequencer.h) at a concrete graph.
use engram_core.Prelude.{[], ◌∷◌, refl, pos, minus_one, arith}
use engram_core.Sequencer.{set_goal}
use engram_core.Sequencer.Goal.{IsGoal, ticks, ticks-set_goal-IsGoal}
use engram_core.Tests.Activity.{linked_graph, calm}

ticks-set_goal-IsGoal_example :
    IsGoal
      (ticks calm
        (pos 966)
        (pos 999)
        ((pos 1, pos 1500) ∷ (minus_one, pos 1500) ∷ [])
        (set_goal (pos 2) linked_graph))
      2
ticks-set_goal-IsGoal_example =
    ticks-set_goal-IsGoal calm (pos 966) (pos 999) ((pos 1, pos 1500) ∷ (minus_one, pos 1500) ∷ [])
      linked_graph 2 (omega arith) refl
