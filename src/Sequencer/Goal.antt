-- ===== src/Sequencer/Goal.antt =====
-- A goal stays at full voltage (src/core/fpsan_sequencer.h).
use engram_core.Prelude.{ℕ, ◌<◌, ◌≡◌, ◌∙◌, refl, List, [], ◌∷◌, true, ◌==◌, lt→ltb, ℤ, pos, arith}
use engram_core.Prelude.Float.{Float}
use engram_core.Neuromod.{NeuromodState}
use engram_core.Graph.Node.{Node}
use engram_core.Graph.Arena.{Graph}
use engram_core.Graph.Chain.{modify}
use engram_core.Graph.Activity.{each_node, tick_node}
use engram_core.Graph.Activity
use engram_core.Sequencer.{set_goal, feed_goals, feed_spike, tick}
use engram_core.Sequencer.Held.{then-Held, feed_goals-Held, feed_spike-Held}

module _ {F : Float} where
  -- A live goal of the arena at full voltage.
  pub record IsGoal (g : Graph F) (i : ℕ) : Type 0 where
    pub known : i < g.node_count
    pub alive : (g.cortex_memory i).alive ≡ true
    pub clamped : (g.cortex_memory i).clamped ≡ true
    pub full : (g.cortex_memory i).activation ≡ F.lit 1 1

  set_goal-IsGoal :
      (g : Graph F) (i : ℕ)
      → i < g.node_count
      → (g.cortex_memory i).alive ≡ true
      → IsGoal (set_goal (pos i) g) i
  unfolding set_goal modify
  set_goal-IsGoal g i known live =
      let here : (i == i) ≡ true = ground arith in
      rw (lt→ltb i g.node_count known, set_goal)
        (record {
          known = known;
          alive = rw here live;
          clamped = rw here refl;
          full = rw here refl;
        })

  tick_node_goal :
      (m : NeuromodState F) (r l1 l2 : F.Carrier) (n : Node F)
      → n.alive ≡ true
      → n.clamped ≡ true
      → ((tick_node m r l1 l2 n).alive ≡ true)
        × ((tick_node m r l1 l2 n).clamped ≡ true)
        × ((tick_node m r l1 l2 n).activation ≡ F.lit 1 1)
  unfolding tick_node
  tick_node_goal m r l1 l2 n live on = rw (live, on) (refl, refl, refl)

  graph_tick-IsGoal :
      (m : NeuromodState F) (r l1 l2 : F.Carrier) (g : Graph F) (i : ℕ)
      → i < g.node_count
      → (g.cortex_memory i).alive ≡ true
      → (g.cortex_memory i).clamped ≡ true
      → IsGoal (Activity.tick m r l1 l2 g) i
  unfolding Activity.tick each_node
  graph_tick-IsGoal m r l1 l2 g i known live on =
      let ticked = tick_node_goal m r l1 l2 (g.cortex_memory i) live on in
      let inside = lt→ltb i g.node_count known in
      record {
        known = known;
        alive = rw inside ticked.0;
        clamped = rw inside ticked.1;
        full = rw inside ticked.2;
      }

  tick-IsGoal :
      (m : NeuromodState F) (l1 l2 : F.Carrier) (spike : ℤ) (v : F.Carrier) (g : Graph F) (i : ℕ)
      → IsGoal g i
      → IsGoal (tick m l1 l2 spike v g) i
  unfolding tick
  tick-IsGoal m l1 l2 spike v g i goal =
      let fed = feed_spike m spike v g in
      let held = then-Held (feed_spike-Held m spike v g) (feed_goals-Held m 0 fed.node_count fed) in
      graph_tick-IsGoal m (F.lit 9 10) l1 l2 (feed_goals m 0 fed.node_count fed) i
        (omega (arith, held.count, goal.known)) (held.alive i ∙ goal.alive)
        (held.clamped i ∙ goal.clamped)

  -- A row of ticks, each with its spike.
  abbrev pub ticks :
      NeuromodState F → F.Carrier → F.Carrier → List (ℤ × F.Carrier) → Graph F → Graph F
  ticks m l1 l2 [] g = g
  ticks m l1 l2 ((spike, v) ∷ row) g = ticks m l1 l2 row (tick m l1 l2 spike v g)

  ticks-IsGoal :
      (m : NeuromodState F) (l1 l2 : F.Carrier) (row : List (ℤ × F.Carrier)) (g : Graph F) (i : ℕ)
      → IsGoal g i
      → IsGoal (ticks m l1 l2 row g) i
  ticks-IsGoal m l1 l2 [] g i goal = goal
  ticks-IsGoal m l1 l2 ((spike, v) ∷ row) g i goal =
      ticks-IsGoal m l1 l2 row _ i (tick-IsGoal m l1 l2 spike v g i goal)

  -- Once set_goal has been called for a live node of the arena, the node is alive, clamped and at
  -- voltage 1 after any number of ticks, whatever spikes come in.
  pub ticks-set_goal-IsGoal :
      (m : NeuromodState F) (l1 l2 : F.Carrier) (row : List (ℤ × F.Carrier)) (g : Graph F) (i : ℕ)
      → i < g.node_count
      → (g.cortex_memory i).alive ≡ true
      → IsGoal (ticks m l1 l2 row (set_goal (pos i) g)) i
  ticks-set_goal-IsGoal m l1 l2 row g i known live =
      ticks-IsGoal m l1 l2 row (set_goal (pos i) g) i (set_goal-IsGoal g i known live)
