-- ===== src/Drives/Goals.antt =====
-- The goal planner of src/core/fpsan_drives.h. What the lexer and `find_word` make of the words of a goal
-- is an argument: for each token the id of its cluster, and whether the lexicon has it as a verb.
use engram_core.Prelude.{
  Text, ℕ, zero, suc, ◌+◌, ◌/◌, ◌%◌, ◌≤◌, ◌<◌, ◌≡◌, refl, ap, ◌∙◌, List, [], ◌∷◌, ◌++◌, Bool, true,
  false, ◌||◌, Option, none, some, ltb, leb, ◌==◌, if◌then◌else◌, length, take, drop, get_elem?, ℤ,
  pos, negsuc, arith, Bool-cases, inl, inr,
}
use engram_core.Prelude.Float.{Float}
use engram_core.Graph.Node.{Edge, edge_implemented_by}
use engram_core.Graph.Arena.{Graph}

-- `steps` holds the rows below `step_count`.
pub record GoalPlanner : Type 0 where
  pub description : Text
  pub steps : List Text
  pub current_step : ℕ
  pub active : Bool

unfoldable pub init_planner : GoalPlanner → GoalPlanner
init_planner p = record p { description = []; steps = []; current_step = 0; active = false }

unfoldable pub add_step : Text → GoalPlanner → GoalPlanner
add_step step p =
    if ltb (length p.steps) 8 then record p { steps = p.steps ++ (take 127 step ∷ []) } else p

-- The decimal digits of a number, by `%d`; each round divides by ten, so its own size is fuel enough.
unfoldable pub digits : ℕ → ℕ → Text → Text
digits zero n acc = acc
digits (suc fuel) n acc =
    let more = digits fuel (n / 10) ((48 + n % 10) ∷ acc) in
    if ltb n 10 then (48 + n) ∷ acc else more

-- `"motor_concept_%d"`.
unfoldable pub motor_step : ℕ → Text
unfolding digits
motor_step id =
    109
    ∷ 111
    ∷ 116
    ∷ 111
    ∷ 114
    ∷ 95
    ∷ 99
    ∷ 111
    ∷ 110
    ∷ 99
    ∷ 101
    ∷ 112
    ∷ 116
    ∷ 95
    ∷ digits (suc id) id []

-- The first known verb of the goal.
unfoldable pub first_verb : List (ℤ × Bool) → Option ℕ
first_verb [] = none
first_verb ((negsuc _, verb) ∷ ts) = first_verb ts
first_verb ((pos id, verb) ∷ ts) = if verb then some id else first_verb ts

unfoldable pub pursue : ℕ → GoalPlanner → GoalPlanner × Bool
unfolding add_step motor_step
pursue id p = (record (add_step (motor_step id) p) { active = true }, true)

module _ {F : Float} where
  unfoldable pub bound_to_motor : List (Edge F) → Bool
  bound_to_motor [] = false
  bound_to_motor (e ∷ es) = (e.kind == edge_implemented_by) || bound_to_motor es

  unfoldable pub has_motor : Graph F → ℕ → Bool
  unfolding bound_to_motor
  has_motor g id = bound_to_motor (g.cortex_memory id).edges

  -- The first known word with a motor binding.
  unfoldable pub first_bound : Graph F → List (ℤ × Bool) → Option ℕ
  unfolding has_motor
  first_bound g [] = none
  first_bound g ((negsuc _, verb) ∷ ts) = first_bound g ts
  first_bound g ((pos id, verb) ∷ ts) = if has_motor g id then some id else first_bound g ts

  -- `set_goal`; without a graph and a cortex (`none`) no word is bound.
  unfoldable pub set_goal :
      Text → Option (Graph F × List (ℤ × Bool)) → GoalPlanner → GoalPlanner × Bool
  unfolding first_verb first_bound has_motor pursue
  set_goal goal none p =
      (record p { description = take 255 goal; steps = []; current_step = 0 }, false)
  set_goal goal (some (g, tokens)) p =
      let p' = record p { description = take 255 goal; steps = []; current_step = 0 } in
      elim (first_verb tokens) [
        | some id ↦ if has_motor g id then pursue id p' else (p', false)
        | none ↦ elim (first_bound g tokens) [ some id ↦ pursue id p' | none ↦ (p', false) ]
      ]

unfoldable pub next_action : GoalPlanner → GoalPlanner × Option Text
next_action p =
    if p.active
    then if leb (length p.steps) p.current_step
      then (record p { active = false }, none)
      else (p, get_elem? p.steps p.current_step)
    else (p, none)

unfoldable pub complete_step : GoalPlanner → GoalPlanner
complete_step p =
    let next = p.current_step + 1 in
    if leb (length p.steps) next
    then record p { current_step = next; active = false }
    else record p { current_step = next }

unfoldable pub cancel : GoalPlanner → GoalPlanner
cancel p = record p { active = false }

-- The goal loop of a caller: it asks for the next action and completes it, `fuel` times at most.
unfoldable pub execute : ℕ → GoalPlanner → GoalPlanner × List Text
unfolding next_action complete_step
execute zero p = (p, [])
execute (suc fuel) p =
    let more = execute fuel (complete_step (next_action p).0) in
    elim (next_action p).1 [ none ↦ ((next_action p).0, []) | some a ↦ (more.0, a ∷ more.1) ]

drop-get_elem? :
    {A : Type 0} (i : ℕ) (xs : List A)
    → i < length xs
    → (x : A) × (get_elem? xs i ≡ some x) × (drop i xs ≡ x ∷ drop (suc i) xs)
drop-get_elem? i [] h = let no : ⊥ = omega arith in elim no [ ]
drop-get_elem? zero (x ∷ xs) h = (x, refl, refl)
drop-get_elem? (suc i) (x ∷ xs) h = drop-get_elem? i xs (omega arith)

drop_past : {A : Type 0} (i : ℕ) (xs : List A) → length xs ≤ i → drop i xs ≡ []
drop_past zero [] h = refl
drop_past zero (x ∷ xs) h = let no : ⊥ = omega arith in elim no [ ]
drop_past (suc i) [] h = refl
drop_past (suc i) (x ∷ xs) h = drop_past i xs (omega arith)

execute_idle : (fuel : ℕ) (p : GoalPlanner) → p.active ≡ false → execute fuel p ≡ (p, [])
unfolding execute next_action
execute_idle zero p h = refl
execute_idle (suc fuel) p h = rw h refl

execute_next :
    (fuel : ℕ) (p : GoalPlanner) (x : Text)
    → next_action p ≡ (p, some x)
    → execute (suc fuel) p
      ≡ ((execute fuel (complete_step p)).0, x ∷ (execute fuel (complete_step p)).1)
unfolding execute
execute_next fuel p x h = rw (execute, h, ap (λ r. r.0) h) refl

next_action-step :
    (p : GoalPlanner) (x : Text)
    → p.active ≡ true
    → p.current_step < length p.steps
    → get_elem? p.steps p.current_step ≡ some x
    → next_action p ≡ (p, some x)
unfolding next_action
next_action-step p x on low at =
    let here : leb (length p.steps) p.current_step ≡ false = ground arith in rw (on, here, at) refl

-- An active goal with steps left executes: a caller that asks for the next action and completes it, for
-- as many rounds as there are steps left, gets the steps left in order, and the goal is done then.
pub execute_steps :
    (fuel : ℕ) (p : GoalPlanner)
    → p.active ≡ true
    → p.current_step < length p.steps
    → length p.steps ≤ p.current_step + fuel
    → execute fuel p
      ≡ (record p { current_step = length p.steps; active = false }, drop p.current_step p.steps)
unfolding complete_step
execute_steps zero p on low enough = let no : ⊥ = omega arith in elim no [ ]
execute_steps (suc fuel) p on low enough =
    let (x, at, split) = drop-get_elem? p.current_step p.steps low in
    elim (Bool-cases (leb (length p.steps) (p.current_step + 1))) [
      | inl last ↦
          let q : GoalPlanner = record p { current_step = p.current_step + 1; active = false } in
          let done : complete_step p ≡ q = rw last refl in
          execute_next fuel p x (next_action-step p x on low at)
          ∙ rw
              (
                done,
                execute_idle fuel q refl,
                split,
                drop_past (suc p.current_step) p.steps (ground arith),
              )
              (ap (λ n. (record p { current_step = n; active = false }, x ∷ [])) (ground arith))
      | inr more ↦
          let q : GoalPlanner = record p { current_step = p.current_step + 1 } in
          let done : complete_step p ≡ q = rw more refl in
          let next : suc p.current_step ≡ p.current_step + 1 = omega arith in
          execute_next fuel p x (next_action-step p x on low at)
          ∙ rw (done, execute_steps fuel q on (ground arith) (omega arith), split, next) refl
    ]
