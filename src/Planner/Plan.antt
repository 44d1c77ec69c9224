-- ===== src/Planner/Plan.antt =====
-- What `collect_motor_chain` (src/core/fpsan_sandbox.h) collects.
use engram_core.Prelude.{
  ℕ, zero, suc, ◌+◌, ◌≤◌, ◌≡◌, ◌∙◌, refl, sym, subst, ◌⊎◌, inl, inr, List, [], ◌∷◌, ◌++◌, true,
  false, ◌==◌, if◌then◌else◌, ℤ, pos, negsuc, minus_one, length, length-append, countb,
  countb-append, append_assoc, append-nil, Bool-cases, arith,
}
use engram_core.Prelude.Float.{Float, IsOrder}
use engram_core.Neuromod.{NeuromodState}
use engram_core.Graph.Arena.{Graph}
use engram_core.Planner.{
  has, head_score, next_score, head_of, next_of, follow_sequence, collect_motor_chain,
}
use engram_core.Planner.Argmax.{Best, argmax-Best}

abbrev pub Distinct : List ℕ → Type 0
Distinct chain = (c : ℕ) → countb (λ k. k == c) chain ≤ 1

-- No way on: no next slot, or one that is on the chain.
abbrev pub Done : ℤ → List ℕ → Type 0
Done (negsuc _) chain = Unit
Done (pos c) chain = has c chain ≡ true

Distinct-append :
    (c : ℕ) (out : List ℕ) → has c out ≡ false → Distinct out → Distinct (out ++ (c ∷ []))
Distinct-append c out h d k = ground (arith, d k, countb-append (λ j. j == k) out (c ∷ []), d c)

-- The start of both searches.
abbrev pub nothing : (F : Float) → ℤ × F.Carrier
nothing F = (minus_one, F.lit 0 1)

module _ {F : Float} where
  -- `rest` is the part of `chain` from `z` on: each slot is followed by the target of a best
  -- EDGE_SEQUENCE edge, and the chain ends where it is full or there is no way on.
  abbrev pub Follows : Graph F → ℕ → List ℕ → ℤ → List ℕ → Type 0
  Follows g max_chain chain z [] = (length chain ≡ max_chain) ⊎ Done z chain
  Follows g max_chain chain z (x ∷ rest) =
      (z ≡ pos x)
      × ((best : ℤ × F.Carrier) × Best (next_score g) (nothing F) best (g.cortex_memory x).edges
          × Follows g max_chain chain best.0 rest)

  -- The plan of a goal: the chain from a best head on, with no slot twice and at most `max_chain`.
  pub record MotorPlan (g : Graph F) (goal max_chain : ℕ) (chain : List ℕ) : Type 0 where
    pub bounded : length chain ≤ max_chain
    pub distinct : Distinct chain
    pub planned :
        (head : ℤ × F.Carrier) × Best (head_score g) (nothing F) head (g.cortex_memory goal).edges
        × Follows g max_chain chain head.0 chain

  module _ (o : IsOrder F) (g : Graph F) (max_chain : ℕ) where
    -- A chain from `out` on.
    abbrev From : List ℕ → ℤ → List ℕ → Type 0
    From out z chain =
        (length chain ≤ max_chain)
        × Distinct chain
        × ((rest : List ℕ) × (chain ≡ out ++ rest) × Follows g max_chain chain z rest)

    next_of-Best : (x : ℕ) → Best (next_score g) (nothing F) (next_of g x) (g.cortex_memory x).edges
    unfolding next_of
    next_of-Best x = argmax-Best (next_score g) o (g.cortex_memory x).edges (nothing F)

    follow_sequence-From :
        (room : ℕ) (z : ℤ) (out : List ℕ)
        → room + length out ≡ max_chain
        → Distinct out
        → From out z (follow_sequence g room z out)
    unfolding follow_sequence
    follow_sequence-From zero z out full d =
        (omega arith, d, ([], sym (append-nil out), inl (omega arith)))
    follow_sequence-From (suc room) (negsuc n) out full d =
        (omega arith, d, ([], sym (append-nil out), inr tt))
    follow_sequence-From (suc room) (pos c) out full d = elim (Bool-cases (has c out)) [
      | inl old ↦ rw old (omega arith, d, ([], sym (append-nil out), inr old))
      | inr new ↦
          let rest =
            follow_sequence-From room (next_of g c).0 (out ++ (c ∷ []))
              (omega (arith, length-append out (c ∷ []))) (Distinct-append c out new d) in
          rw new (
            rest.0,
            rest.1,
            (
              c ∷ rest.2.0,
              rest.2.1 ∙ append_assoc out (c ∷ []) rest.2.0,
              (refl, (next_of g c, next_of-Best c, rest.2.2)),
            ),
          )
    ]

    chain-MotorPlan :
        (goal : ℕ)
        → MotorPlan g goal max_chain
            (if max_chain == 0 then [] else follow_sequence g max_chain (head_of g goal).0 [])
    unfolding head_of
    chain-MotorPlan goal = elim (Bool-cases (max_chain == 0)) [
      | inl none_left ↦ rw none_left (record {
        bounded = omega arith;
        distinct = λ c. omega arith;
        planned = (
          head_of g goal,
          argmax-Best (head_score g) o (g.cortex_memory goal).edges (nothing F),
          inl (ground arith),
        );
      })
      | inr some_left ↦
          let all =
            follow_sequence-From max_chain (head_of g goal).0 [] (omega arith) (λ c. omega arith) in
          rw some_left (record {
            bounded = all.0;
            distinct = all.1;
            planned = (
              head_of g goal,
              argmax-Best (head_score g) o (g.cortex_memory goal).edges (nothing F),
              subst
                  (Follows g max_chain (follow_sequence g max_chain (head_of g goal).0 [])
                    (head_of g goal).0)
                  (sym all.2.1) all.2.2,
            );
          })
    ]

  -- Under an ordered float arithmetic the chain of a goal has at most max_chain slots and none
  -- twice; it starts at a best head, a motor node behind an EDGE_IMPLEMENTED_BY edge with the
  -- highest activation above 0; each slot is followed by the target of a heaviest EDGE_SEQUENCE
  -- edge; and it ends where it is full, where there is no such edge, or where the next slot is on
  -- it.
  pub collect_motor_chain-MotorPlan :
      IsOrder F
      → (m : NeuromodState F) (goal max_chain : ℕ) (g : Graph F)
      → let (h, chain) = collect_motor_chain m (pos goal) max_chain g in
        MotorPlan h goal max_chain chain
  unfolding collect_motor_chain
  collect_motor_chain-MotorPlan o m goal max_chain g = chain-MotorPlan o _ max_chain goal
