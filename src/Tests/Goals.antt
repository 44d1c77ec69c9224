-- ===== src/Tests/Goals.antt =====
-- The goal pursuit and the planner (src/fpsan_live_core.cpp, src/core/fpsan_sandbox.h) at concrete inputs.
use engram_core.Prelude.{
  ℕ, ◌==◌, ◌≡◌, ◌↔◌, refl, List, [], ◌∷◌, true, false, none, some, if◌then◌else◌, arith, pos,
  minus_one, All, Text, codes, length, length-append, length-map, zero, suc, ap,
}
use engram_core.Prelude.Float.{thousandths, thousandths-IsOrder}
use engram_core.Graph.Node.{Node, Edge, MotorAction}
use engram_core.Graph.Arena.{Graph}
use engram_core.Graph.Spread.{spread_typed}
use engram_core.Planner.{mirror, collect_motor_chain, is_safe}
use engram_core.Planner.Plan.{MotorPlan, collect_motor_chain-MotorPlan}
use engram_core.Planner.Veto.{Ready, is_safe-Ready}
use engram_core.GoalGate.{
  to_lower, Outcome, posted, goal_step, run_edges, first_sequence, disk_ops_policy_blocks_lower,
  motor_chain_policy_blocks_disk_ops, collect_goal_motor_chain_flat,
}
use engram_core.GoalGate.Policy.{policy_catches, policy_blind, lowered}
use engram_core.GoalGate.Screened.{Unused}
use engram_core.GoalGate.Gate.{Screened, goal_step-Screened, goal_step_returns}
use engram_core.GoalGate.Endless.{run_edges_endless}
use engram_core.Tests.Graph.{linked}
use engram_core.Tests.Activity.{linked_graph, calm}

abbrev way : ℕ → ℕ → Edge thousandths
way t k = record { target = pos t; weight = pos 2000; co_occur_count = 1; kind = k; provenance = 1 }

abbrev launch : Text → MotorAction
launch t = record linked.motor_action { kind = 4; text = t }

abbrev motor : Text → List (Edge thousandths) → Node thousandths
motor t es = record linked { is_motor_node = true; motor_action = launch t; edges = es }

spaces : ℕ → Text
spaces zero = []
spaces (suc n) = b' ' ∷ spaces n

length-spaces : (n : ℕ) → length (spaces n) ≡ n
unfolding spaces
length-spaces zero = refl
length-spaces (suc n) = ap suc (length-spaces n)

-- The concept 1 launches 2 and then 3, and 6 launches 7; the sequence of 5 comes back to 5.
abbrev taught : Graph thousandths
taught = record linked_graph {
  cortex_memory = λ i.
      if i == 1
      then record linked { edges = way 2 14 ∷ [] }
      else if i == 2
      then motor (codes "notepad.exe") (way 3 5 ∷ [])
      else if i == 3
      then motor (codes "DiskPart /s x") []
      else if i == 5
      then motor (codes "again") (way 5 5 ∷ [])
      else if i == 6
      then record linked { edges = way 7 14 ∷ [] }
      else if i == 7
      then motor (codes "calc.exe") []
      else if i == 4
      then motor (spaces 2047) []
      else linked;
}

taught-Unused : Unused taught
taught-Unused i h = ground arith

abbrev empty : Graph thousandths
empty = record linked_graph { node_count = 0 }

calculator_runs :
    goal_step
      (λ i. linked)
      (λ i. minus_one)
      (record { shadow = empty; mapped = false })
      calm
      64
      6
      taught
    ≡ some (posted (launch (codes "calc.exe") ∷ []) true)
unfolding goal_step mirror is_safe spread_typed collect_goal_motor_chain_flat run_edges
    motor_chain_policy_blocks_disk_ops
calculator_runs = refl

goal_step-Screened_example :
    Screened thousandths-IsOrder refl
      (λ i. linked)
      (λ i. minus_one)
      calm
      taught
      empty
      6
      (omega arith)
      taught-Unused
      (omega arith)
      (launch (codes "calc.exe") ∷ [])
goal_step-Screened_example =
    goal_step-Screened thousandths-IsOrder refl (λ i. linked) (λ i. minus_one) calm taught empty 6
      (omega arith) taught-Unused (omega arith) 64 (launch (codes "calc.exe") ∷ []) true
      calculator_runs

goal_step_returns_example :
    (out : Outcome) × (goal_step
        (λ i. linked)
        (λ i. minus_one)
        (record { shadow = empty; mapped = false })
        calm
        64
        6
        taught
      ≡ some out)
goal_step_returns_example =
    goal_step_returns thousandths-IsOrder refl (λ i. linked) (λ i. minus_one) calm taught empty 6
      (omega arith) taught-Unused (omega arith) 64 (omega arith)
      (unfold collect_goal_motor_chain_flat in omega arith)

policy_catches_example : motor_chain_policy_blocks_disk_ops taught (2 ∷ 3 ∷ []) ≡ true
policy_catches_example =
    policy_catches taught (2 ∷ 3 ∷ []) (launch (codes "notepad.exe") ∷ []) []
      (launch (codes "DiskPart /s x")) refl refl (unfold disk_ops_policy_blocks_lower in refl)
      (omega arith)

run_edges_endless_example : run_edges taught 1000 (way 5 14 ∷ []) ≡ none
run_edges_endless_example =
    run_edges_endless taught (λ i. i ≡ 5)
      (λ i p. rw p (refl, (5, unfold first_sequence in refl, refl))) 1000 5 [] [] (way 5 14) refl
      refl refl

collect_motor_chain-MotorPlan_example :
    let (h, chain) = collect_motor_chain calm (pos 1) 64 taught in MotorPlan h 1 64 chain
collect_motor_chain-MotorPlan_example =
    collect_motor_chain-MotorPlan thousandths-IsOrder calm 1 64 taught

is_safe-Ready_example :
    ((is_safe calm
        (pos 1)
        (pos 2 ∷ pos 3 ∷ [])
        (some taught)
        (record { shadow = empty; mapped = false })).1
      ≡ true)
    ↔ All (Ready taught) (pos 2 ∷ pos 3 ∷ [])
is_safe-Ready_example =
    is_safe-Ready thousandths-IsOrder refl calm (pos 1) (pos 2 ∷ pos 3 ∷ []) taught
      (record { shadow = empty; mapped = false }) (omega arith)

-- A disk tool behind 2047 spaces is launched like the calculator.
policy_blind_example :
    motor_chain_policy_blocks_disk_ops taught (4 ∷ 3 ∷ [])
    ≡ motor_chain_policy_blocks_disk_ops taught (4 ∷ 7 ∷ [])
policy_blind_example =
    policy_blind taught (4 ∷ 3 ∷ []) (4 ∷ 7 ∷ []) (launch (spaces 2047) ∷ [])
      (launch (codes "DiskPart /s x") ∷ []) (launch (codes "calc.exe") ∷ []) refl refl
      (let text = lowered (spaces 2047) in
        omega (
          arith,
          length-append text (b' ' ∷ []),
          length-map to_lower (spaces 2047),
          length-spaces 2047,
        ))
