-- ===== src/GoalGate/Screened.antt =====
-- The actions that the goal pursuit posts, against the chain that it screens (src/fpsan_live_core.cpp).
use engram_core.Prelude.{
  take, take-append, take_all, length-take, length-map, map_append, ℕ, zero, suc, ◌-◌, ◌≤◌, ◌<◌,
  ◌≡◌, ◌∙◌, refl, sym, ap, inl, inr, List, [], ◌∷◌, ◌++◌, map, Bool, true, false, Option, none,
  some, ◌==◌, if◌then◌else◌, ℤ, pos, negsuc, in_range, length, length-append, Bool-cases,
  Option-cases, arith,
}
use mathlib.Core.Option
use engram_core.Prelude.Float.{Float}
use engram_core.Graph.Node.{Edge, MotorAction, edge_implemented_by}
use engram_core.Graph.Arena.{Graph}
use engram_core.GoalGate.{first_sequence, flat_walk, flat_edges, run_walk, run_edges, action_of}

module _ {F : Float} (g : Graph F) where
  -- No slot above the count holds a motor node.
  abbrev pub Unused : Type 0
  Unused = (i : ℕ) → g.node_count ≤ i → (g.cortex_memory i).is_motor_node ≡ false

  abbrev acts_of : List ℕ → List MotorAction
  acts_of = map (action_of g)

  length-flat_walk-le : (room : ℕ) (z : ℤ) → length (flat_walk g room z) ≤ room
  unfolding flat_walk
  length-flat_walk-le zero z = omega arith
  length-flat_walk-le (suc room) (negsuc n) = omega arith
  length-flat_walk-le (suc room) (pos c) =
      ground (arith, length-flat_walk-le room (first_sequence (g.cortex_memory c).edges))

  -- A walk that leaves room is executed as it was collected.
  run_walk-flat_walk :
      (room fuel : ℕ) (z : ℤ)
      → length (flat_walk g room z) < room
      → room ≤ fuel
      → run_walk g fuel z ≡ some (acts_of (flat_walk g room z))
  unfolding run_walk flat_walk
  run_walk-flat_walk zero fuel z short le = absurd (omega arith)
  run_walk-flat_walk (suc room) zero z short le = absurd (omega arith)
  run_walk-flat_walk (suc room) (suc fuel) (negsuc n) short le = refl
  run_walk-flat_walk (suc room) (suc fuel) (pos c) short le =
      elim (Bool-cases (g.cortex_memory c).is_motor_node) [
        | inl motor ↦
            let rest =
              run_walk-flat_walk room fuel (first_sequence (g.cortex_memory c).edges) (ground arith)
                (omega arith) in
            rw (motor, rest)
        | inr other ↦ rw other
      ]

  -- Whatever a walk executes begins with what was collected.
  take-run_walk :
      (room fuel : ℕ) (z : ℤ) (acts : List MotorAction)
      → run_walk g fuel z ≡ some acts
      → take room acts ≡ acts_of (flat_walk g room z)
  unfolding run_walk flat_walk
  take-run_walk zero fuel z acts h = refl
  take-run_walk (suc room) zero z acts h = cc
  take-run_walk (suc room) (suc fuel) (negsuc n) acts h = let e : [] ≡ acts = cc in rw (← e)
  take-run_walk (suc room) (suc fuel) (pos c) acts h =
      split (g.cortex_memory c).is_motor_node (run_walk g fuel next) (take-run_walk room fuel next)
        h
    where
      next : ℤ
      next = first_sequence (g.cortex_memory c).edges

      split :
          (b : Bool) (r : Option (List MotorAction))
          → ((acts' : List MotorAction)
              → r ≡ some acts'
              → take room acts' ≡ acts_of (flat_walk g room next))
          → (if b then Option.map (◌∷◌ (action_of g c)) r else some []) ≡ some acts
          → take (suc room) acts ≡ acts_of (if b then c ∷ flat_walk g room next else [])
      split false r q k = let e : [] ≡ acts = cc in rw (← e)
      split true none q k = cc
      split true (some rest) q k =
          let e : action_of g c ∷ rest ≡ acts = cc in
          rw (← e) (ap (◌∷◌ (action_of g c)) (q rest refl))

  -- A target that is no slot is not executed either.
  run_walk_outside :
      Unused
      → (fuel : ℕ) (z : ℤ) → 0 < fuel
      → in_range g.node_count z ≡ none
      → run_walk g fuel z ≡ some []
  unfolding run_walk
  run_walk_outside unused zero z pos_fuel out = absurd (omega arith)
  run_walk_outside unused (suc fuel) (negsuc n) pos_fuel out = refl
  run_walk_outside unused (suc fuel) (pos c) pos_fuel out =
      let idle = unused c (ground arith) in rw idle

  length-flat_edges-le : (room : ℕ) (es : List (Edge F)) → length (flat_edges g room es) ≤ room
  unfolding flat_edges
  length-flat_edges-le room [] = omega arith
  length-flat_edges-le zero (e ∷ es) = omega arith
  length-flat_edges-le (suc room) (e ∷ es) =
      let walk = flat_walk g (suc room) e.target in
      ground (
        arith,
        length-flat_edges-le (suc room) es,
        length-flat_edges-le (suc room - length walk) es,
        length-flat_walk-le (suc room) e.target,
        length-append walk (flat_edges g (suc room - length walk) es),
      )

  -- A chain that leaves room is executed as it was screened.
  pub run_edges-flat_edges :
      Unused
      → (room fuel : ℕ) (es : List (Edge F)) → length (flat_edges g room es) < room
      → room ≤ fuel
      → (done : Bool) × (run_edges g fuel es ≡ some (acts_of (flat_edges g room es), done))
  unfolding run_edges flat_edges
  run_edges-flat_edges unused room fuel [] short le = (false, refl)
  run_edges-flat_edges unused zero fuel (e ∷ es) short le = absurd (omega arith)
  run_edges-flat_edges unused (suc room) fuel (e ∷ es) short le =
      elim (Bool-cases (e.kind == edge_implemented_by)) [
        | inr other ↦
            let rest = run_edges-flat_edges unused (suc room) fuel es (ground arith) le in
            rw other rest
        | inl impl ↦ elim (Option-cases (in_range g.node_count e.target)) [
          | inl out ↦
              let rest = run_edges-flat_edges unused (suc room) fuel es (ground arith) le in
              rw (impl, out, run_walk_outside unused fuel e.target (omega arith) out, rest.1)
                (true, refl)
          | inr (t, found) ↦
              let walk = flat_walk g (suc room) e.target in
              let more = flat_edges g (suc room - length walk) es in
              let total = length-append walk more in
              let short' = rw (impl, found) at short in
              let rest =
                run_edges-flat_edges unused (suc room - length walk) fuel es (omega arith)
                  (omega arith) in
              let first = run_walk-flat_walk (suc room) fuel e.target (omega arith) le in
              rw (impl, found, first, rest.1) (true, rw (map_append (action_of g) walk more) refl)
        ]
      ]

  parts :
      (walked : Option (List MotorAction)) (others : Option (List MotorAction × Bool))
      (acts : List MotorAction) (done : Bool)
      → let out : Option (List MotorAction × Bool) = elim walked [
        | none ↦ none
        | some w ↦ Option.map (λ r. (w ++ r.0, true)) others
      ] in
        out ≡ some (acts, done)
        → (w : List MotorAction) × (r : List MotorAction × Bool) × (walked ≡ some w)
          × (others ≡ some r)
          × (w ++ r.0 ≡ acts)
  parts none others acts done h = cc
  parts (some w) none acts done h = cc
  parts (some w) (some r) acts done h =
      let e : ◌≡◌ {A = List MotorAction × Bool} (w ++ r.0, true) (acts, done) = cc in
      (w, r, refl, refl, ap (λ p. p.0) e)

  outside_nothing :
      Unused
      → (fuel : ℕ) (z : ℤ) (w : List MotorAction) → in_range g.node_count z ≡ none
      → run_walk g fuel z ≡ some w
      → w ≡ []
  outside_nothing unused zero z w out h = unfold run_walk in cc
  outside_nothing unused (suc fuel) z w out h =
      let idle = run_walk_outside unused (suc fuel) z (omega arith) out in cc

  -- Whatever is executed begins with what was screened.
  pub take-run_edges :
      Unused
      → (room fuel : ℕ) (es : List (Edge F)) (acts : List MotorAction) (done : Bool)
      → run_edges g fuel es ≡ some (acts, done)
      → take room acts ≡ acts_of (flat_edges g room es)
  unfolding run_edges flat_edges
  take-run_edges unused room fuel [] acts done h =
      let e : ◌≡◌ {A = List MotorAction × Bool} ([], false) (acts, done) = cc in
      rw (← ap (λ p. p.0) e) (take_all room [] (omega arith))
  take-run_edges unused zero fuel (e ∷ es) acts done h = refl
  take-run_edges unused (suc room) fuel (e ∷ es) acts done h =
      elim (Bool-cases (e.kind == edge_implemented_by)) [
        | inr other ↦ rw other (take-run_edges unused (suc room) fuel es acts done (rw other at h))
        | inl impl ↦
            let p =
              parts (run_walk g fuel e.target) (run_edges g fuel es) acts done (rw impl at h) in
            elim (Option-cases (in_range g.node_count e.target)) [
              | inl out ↦
                  let empty = outside_nothing unused fuel e.target p.0 out p.2 in
                  let same = ap (λ k. k ++ p.1.0) (sym empty) ∙ p.4 in
                  rw (impl, out, ← same) (take-run_edges unused (suc room) fuel es p.1.0 p.1.1 p.3)
              | inr (t, found) ↦
                  let walk = flat_walk g (suc room) e.target in
                  let more = flat_edges g (suc room - length walk) es in
                  let first = take-run_walk (suc room) fuel e.target p.0 p.2 in
                  let left : suc room - length p.0 ≡ suc room - length walk = omega (
                    arith,
                    ap length first,
                    length-take (suc room) p.0,
                    length-map (action_of g) walk,
                  ) in
                  let rest =
                    take-run_edges unused (suc room - length walk) fuel es p.1.0 p.1.1 p.3 in
                  rw (impl, found, ← p.4, take-append (suc room) p.0 p.1.0, left, first, rest)
                    (sym (map_append (action_of g) walk more))
            ]
      ]
