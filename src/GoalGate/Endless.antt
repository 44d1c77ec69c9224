-- ===== src/GoalGate/Endless.antt =====
-- The posting loop of the goal pursuit (src/fpsan_live_core.cpp) on a sequence that comes back to itself.
use engram_core.Prelude.{
  ℕ, zero, suc, ◌≡◌, refl, List, [], ◌∷◌, ◌++◌, Bool, true, false, Option, none, some, ◌==◌,
  if◌then◌else◌, pos,
}
use mathlib.Core.Option
use engram_core.Prelude.Float.{Float}
use engram_core.Graph.Node.{Edge, MotorAction, edge_implemented_by}
use engram_core.Graph.Arena.{Graph}
use engram_core.GoalGate.{first_sequence, run_walk, run_edges}

module _ {F : Float} (g : Graph F) (P : ℕ → Type 0) where
  -- Motor nodes of which each has a first EDGE_SEQUENCE edge to another one of them.
  abbrev pub Circling : Type 0
  Circling =
      (i : ℕ)
      → P i
      → ((g.cortex_memory i).is_motor_node ≡ true)
        × ((j : ℕ) × (first_sequence (g.cortex_memory i).edges ≡ pos j) × P j)

  module _ (circling : Circling) where
    run_walk_endless : (fuel c : ℕ) → P c → run_walk g fuel (pos c) ≡ none
    unfolding run_walk
    run_walk_endless zero c p = refl
    run_walk_endless (suc fuel) c p =
        let (motor, next) = circling c p in rw (motor, next.1, run_walk_endless fuel next.0 next.2)

    -- Where a concept is implemented by one of a set of motor nodes of which each has a first
    -- EDGE_SEQUENCE edge to another one of them, the posting loop never ends: however many rounds
    -- it has, they are too few.
    pub run_edges_endless :
        (fuel c : ℕ) (front back : List (Edge F)) (e : Edge F)
        → (e.kind == edge_implemented_by) ≡ true
        → e.target ≡ pos c
        → P c
        → run_edges g fuel (front ++ (e ∷ back)) ≡ none
    unfolding run_edges
    run_edges_endless fuel c [] back e impl to p = rw (impl, to, run_walk_endless fuel c p)
    run_edges_endless fuel c (d ∷ front) back e impl to p =
        later (d.kind == edge_implemented_by) (run_walk g fuel d.target)
          (run_edges_endless fuel c front back e impl to p)
      where
        rest : Option (List MotorAction × Bool)
        rest = run_edges g fuel (front ++ (e ∷ back))

        later :
            (b : Bool) (w : Option (List MotorAction))
            → rest ≡ none
            → (let out : Option (List MotorAction × Bool) =
                  if b
                  then (elim w [
                    | none ↦ none
                    | some acts ↦ Option.map (λ r. (acts ++ r.0, true)) rest
                  ])
                  else rest in
                out)
              ≡ none
        later false w h = h
        later true none h = refl
        later true (some acts) h = rw h
