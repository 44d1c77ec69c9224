-- ===== src/GoalGate/Gate.antt =====
-- What the goal pursuit (src/fpsan_live_core.cpp) posts has passed both screens.
use engram_core.Prelude.{
  take, take_all, length-take, length-map, ℕ, ◌≤◌, ◌<◌, ◌≡◌, ◌∙◌, refl, sym, ap, ◌⊎◌, inl, inr,
  List, [], ◌∷◌, map, Bool, true, false, ◌&&◌, ◌||◌, not, Option, none, some, ◌==◌, if◌then◌else◌,
  ℤ, pos, length, All, Bool-cases, arith,
}
use mathlib.Core.Option
use engram_core.Prelude.Float.{Float, IsOrder}
use engram_core.Neuromod.{NeuromodState}
use engram_core.Graph.Node.{Node, MotorAction}
use engram_core.Graph.Arena.{Graph}
use engram_core.Planner.{ShadowBrain, mirror, is_safe, max_motor_chain}
use engram_core.Planner.Veto.{Ready, is_safe-Ready, mirror-count}
use engram_core.GoalGate.{
  Outcome, vetoed, posted, goal_step, collect_goal_motor_chain_flat, flat_edges, action_of,
  run_edges, motor_chain_policy_blocks_disk_ops,
}
use engram_core.GoalGate.Screened.{Unused, take-run_edges, run_edges-flat_edges}

module _ {F : Float} (o : IsOrder F) (low : F.ltb (F.lit 0 1) (F.lit 5 100) ≡ true)
    (raw : ℕ → Node F) (raw_next : ℕ → ℤ) (m : NeuromodState F) (g blank : Graph F) (target : ℕ)
    (inside : target < g.node_count) (unused : Unused g)
    (smaller : blank.node_count ≤ g.node_count) where
  abbrev fresh : ShadowBrain F
  fresh = record { shadow = blank; mapped = false }

  abbrev screened_chain : List ℕ
  screened_chain = collect_goal_motor_chain_flat g (pos target) max_motor_chain

  -- The first 64 actions are those of the screened chain, which is empty or has passed both screens;
  -- a shorter chain is all that is posted.
  pub record Screened (acts : List MotorAction) : Type 0 where
    pub first : take max_motor_chain acts ≡ map (action_of g) screened_chain
    pub all_of : length screened_chain < max_motor_chain → acts ≡ map (action_of g) screened_chain
    pub passed :
        (screened_chain ≡ [])
        ⊎ (motor_chain_policy_blocks_disk_ops g screened_chain ≡ false)
          × All (Ready g) (map pos screened_chain)

  chain_lem : screened_chain ≡ flat_edges g max_motor_chain (g.cortex_memory target).edges
  unfolding collect_goal_motor_chain_flat
  chain_lem = ground arith

  abbrev safe : Bool
  safe =
      (is_safe m (pos target) (map pos screened_chain) (some g) (mirror raw raw_next g 0 fresh)).1

  abbrev blocked : Bool
  blocked =
      not (length screened_chain == 0)
      && (motor_chain_policy_blocks_disk_ops g screened_chain || not safe)

  safe-Ready : safe ≡ true → All (Ready g) (map pos screened_chain)
  safe-Ready =
      (is_safe-Ready o low m (pos target) (map pos screened_chain) g (mirror raw raw_next g 0 fresh)
        (mirror-count raw raw_next g blank smaller)).0

  passed_lem :
      (chain : List ℕ) (disk safe' : Bool)
      → (not (length chain == 0) && (disk || not safe')) ≡ false
      → (chain ≡ []) ⊎ (disk ≡ false) × (safe' ≡ true)
  passed_lem [] disk safe' h = inl refl
  passed_lem (x ∷ xs) true safe' h = ground arith
  passed_lem (x ∷ xs) false true h = inr (refl, refl)
  passed_lem (x ∷ xs) false false h = ground arith

  posted_lem :
      (stop : Bool) (r : Option (List MotorAction × Bool)) (acts : List MotorAction) (done : Bool)
      → (if stop then some vetoed else Option.map (λ p. posted p.0 p.1) r) ≡ some (posted acts done)
      → (stop ≡ false) × (r ≡ some (acts, done))
  posted_lem true r acts done h = cc
  posted_lem false none acts done h = cc
  posted_lem false (some p) acts done h = (refl, cc)

  -- For a target in the arena, where no slot above the count is a motor node and a fresh shadow is
  -- used: whatever a goal step posts is screened. The first 64 actions are those of the chain that
  -- was checked, a chain of fewer than 64 is all that is posted, and a chain that is not empty was
  -- not blocked by the disk policy and has all that its nodes require active.
  pub goal_step-Screened :
      (fuel : ℕ) (acts : List MotorAction) (done : Bool)
      → goal_step raw raw_next fresh m fuel target g ≡ some (Outcome.posted acts done)
      → Screened acts
  unfolding goal_step
  goal_step-Screened fuel acts done h =
      let run = posted_lem blocked (run_edges g fuel (g.cortex_memory target).edges) acts done h in
      let first : take max_motor_chain acts ≡ map (action_of g) screened_chain =
        take-run_edges g unused max_motor_chain fuel (g.cortex_memory target).edges acts done run.1
        ∙ ap (map (action_of g)) (sym chain_lem) in
      record {
        first = first;
        all_of = λ short.
            sym (
              take_all max_motor_chain acts (
                omega (
                  arith,
                  ap length first,
                  length-take max_motor_chain acts,
                  length-map (action_of g) screened_chain,
                )))
            ∙ first;
        passed = elim (passed_lem screened_chain _ safe run.0) [
          | inl empty ↦ inl empty
          | inr clean ↦ inr (clean.0, safe-Ready clean.1)
        ];
      }

  -- For a target in the arena, where no slot above the count is a motor node and a fresh shadow is
  -- used: a chain of fewer than 64 motor nodes is blocked or posted within 64 rounds of each loop.
  pub goal_step_returns :
      (fuel : ℕ)
      → max_motor_chain ≤ fuel
      → length screened_chain < max_motor_chain
      → (out : Outcome) × (goal_step raw raw_next fresh m fuel target g ≡ some out)
  unfolding goal_step
  goal_step_returns fuel enough short = elim (Bool-cases blocked) [
    | inl stop ↦ (vetoed, rw stop)
    | inr go ↦
        let run =
          run_edges-flat_edges g unused max_motor_chain fuel (g.cortex_memory target).edges
            (rw (← chain_lem) short) enough in
        (
          posted (map (action_of g) (flat_edges g max_motor_chain (g.cortex_memory target).edges))
              run.0,
          rw (go, run.1),
        )
  ]
