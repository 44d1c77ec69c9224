-- ===== src/Planner/Veto.antt =====
-- What `is_safe` (src/core/fpsan_sandbox.h) lets pass, when it is given the main graph.
use engram_core.Prelude.{
  ℕ, ◌≤◌, ◌<◌, ◌≡◌, ◌∙◌, refl, subst, ◌↔◌, List, [], ◌∷◌, Bool, true, false, not, Option, none,
  some, ◌==◌, ltb, ℤ, pos, negsuc, in_range, All, allb, Bool-cases, inl, inr, arith, lt→ltb,
}
use engram_core.Prelude.Float.{Float, IsOrder}
use engram_core.Neuromod.{NeuromodState}
use engram_core.Graph.Node.{Node, Edge, edge_requires, edge_implemented_by}
use engram_core.Graph.Arena.{Graph}
use engram_core.Graph.Spread.{activation_of, spread_typed}
use engram_core.Graph.Activity.{clear_activation}
use engram_core.Graph.Locality.{Leads, spread_typed-Within}
use engram_core.Planner.{ShadowBrain, mirror, required_activation, met, motor_met, imagine, is_safe}

abbrev Anywhere : ℕ → Type 0
Anywhere i = Unit

module _ {F : Float} where
  -- What an edge asks for is a slot of the graph whose activation is not below 0.05.
  abbrev pub Held : Graph F → Edge F → Type 0
  Held main e =
      (e.kind == edge_requires) ≡ true
      → (req : ℕ) → e.target ≡ pos req
      → (req < main.node_count) × (F.ltb (activation_of main req) (F.lit 5 100) ≡ false)

  abbrev pub Ready : Graph F → ℤ → Type 0
  Ready main mid =
      (i : ℕ) → in_range main.node_count mid ≡ some i → All (Held main) (main.cortex_memory i).edges

  module _ (low : F.ltb (F.lit 0 1) (F.lit 5 100) ≡ true) (main shadow : Graph F)
      (smaller : shadow.node_count ≤ main.node_count) where
    -- The test of one required slot.
    abbrev passes : ℤ → Bool
    passes z = elim z [
      | negsuc _ ↦ true
      | pos req ↦ not (F.ltb (required_activation shadow (some main) req) (F.lit 5 100))
    ]

    Asked : ℤ → Type 0
    Asked z =
        (req : ℕ)
        → z ≡ pos req
        → (req < main.node_count) × (F.ltb (activation_of main req) (F.lit 5 100) ≡ false)

    passes→Asked : (z : ℤ) → passes z ≡ true → Asked z
    unfolding Asked required_activation
    passes→Asked (negsuc n) h req q = cc
    passes→Asked (pos k) h req q =
        let same : k ≡ req = cc in
        subst (λ j. (j < main.node_count) × (F.ltb (activation_of main j) (F.lit 5 100) ≡ false))
          same (split (ltb k main.node_count) refl)
      where
        split :
            (b : Bool)
            → ltb k main.node_count ≡ b
            → (k < main.node_count) × (F.ltb (activation_of main k) (F.lit 5 100) ≡ false)
        split true e = (ground arith, let h' = rw e at h in ground arith)
        split false e =
            let out : ltb k shadow.node_count ≡ false = ground arith in
            let h' = rw (e, out, low) at h in cc

    Asked→passes : (z : ℤ) → Asked z → passes z ≡ true
    unfolding Asked required_activation
    Asked→passes (negsuc n) h = refl
    Asked→passes (pos k) h = let held = h k refl in rw (lt→ltb k main.node_count held.0, held.1)

    met_iff : (e : Edge F) → (met shadow (some main) e ≡ true) ↔ Held main e
    unfolding met Asked
    met_iff e = elim (Bool-cases (e.kind == edge_requires)) [
      | inl asks ↦ rw asks (λ h _. passes→Asked e.target h, λ h. Asked→passes e.target (h refl))
      | inr other ↦ rw other (λ h q. cc, λ h. refl)
    ]

    edges_met_iff :
        (es : List (Edge F)) → (allb (met shadow (some main)) es ≡ true) ↔ All (Held main) es
    edges_met_iff [] = (λ h. tt, λ h. refl)
    edges_met_iff (e ∷ es) = (
      λ h. ((met_iff e).0 (ground arith), (edges_met_iff es).0 (ground arith)),
      λ h. rw ((met_iff e).1 h.0) ((edges_met_iff es).1 h.1),
    )

    motor_met_iff : (mid : ℤ) → (motor_met shadow (some main) mid ≡ true) ↔ Ready main mid
    unfolding motor_met
    motor_met_iff mid = split (in_range main.node_count mid)
      where
        split :
            (r : Option ℕ)
            → ((elim r [
              | none ↦ true
              | some i ↦ allb (met shadow (some main)) (main.cortex_memory i).edges
            ])
                ≡ true)
              ↔ ((i : ℕ) → r ≡ some i → All (Held main) (main.cortex_memory i).edges)
        split none = (λ h i q. cc, λ h. refl)
        split (some j) = (
          λ h i q.
              let same : j ≡ i = cc in
              subst (λ k. All (Held main) (main.cortex_memory k).edges) same
                ((edges_met_iff (main.cortex_memory j).edges).0 h),
          λ h. (edges_met_iff (main.cortex_memory j).edges).1 (h j refl),
        )

    chain_met_iff :
        (chain : List ℤ)
        → (allb (motor_met shadow (some main)) chain ≡ true) ↔ All (Ready main) chain
    chain_met_iff [] = (λ h. tt, λ h. refl)
    chain_met_iff (z ∷ zs) = (
      λ h. ((motor_met_iff z).0 (ground arith), (chain_met_iff zs).0 (ground arith)),
      λ h. rw ((motor_met_iff z).1 h.0) ((chain_met_iff zs).1 h.1),
    )

  all_lead : (count follow : ℕ) (es : List (Edge F)) → All (Leads Anywhere count follow) es
  all_lead count follow [] = tt
  all_lead count follow (e ∷ es) = (λ k t q. tt, all_lead count follow es)

  -- The imagined spread leaves the size of the shadow.
  imagine-count :
      IsOrder F
      → (m : NeuromodState F) (goal : ℤ) (s : Graph F)
      → (imagine m goal s).node_count ≡ s.node_count
  unfolding imagine
  imagine-count o m goal s = split (in_range s.node_count goal)
    where
      cleared : Graph F
      cleared = clear_activation s

      spread :
          (spread_typed m edge_implemented_by goal (F.lit 1 10) cleared).0.node_count
          ≡ cleared.node_count
      spread =
          (spread_typed-Within o m Anywhere edge_implemented_by goal (F.lit 1 10) cleared
            (λ i p. all_lead cleared.node_count edge_implemented_by (cleared.cortex_memory i).edges)
            (λ i q. tt)).same_count

      split :
          (r : Option ℕ)
          → (let out : Graph F = elim r [
            | none ↦ s
            | some i ↦ (spread_typed m edge_implemented_by goal (F.lit 1 10) (clear_activation s)).0
          ] in
              out.node_count)
            ≡ s.node_count
      split none = refl
      split (some i) = spread ∙ (unfold clear_activation in refl)

  -- Given the main graph, and where the shadow has no more slots than it: `is_safe` answers true
  -- just when each motor node of the chain finds all that it requires active in the main graph, at
  -- 0.05 or above. What the shadow holds makes no difference.
  pub is_safe-Ready :
      IsOrder F
      → F.ltb (F.lit 0 1) (F.lit 5 100) ≡ true
      → (m : NeuromodState F) (goal : ℤ) (chain : List ℤ) (main : Graph F) (sb : ShadowBrain F)
      → sb.shadow.node_count ≤ main.node_count
      → ((is_safe m goal chain (some main) sb).1 ≡ true) ↔ All (Ready main) chain
  unfolding is_safe
  is_safe-Ready o low m goal [] main sb small = (λ h. tt, λ h. refl)
  is_safe-Ready o low m goal (mid ∷ chain) main sb small =
      chain_met_iff low main (imagine m goal sb.shadow)
        (rw (imagine-count o m goal sb.shadow) small) (mid ∷ chain)

  -- A fresh shadow has at most the slots of the graph that it mirrors.
  pub mirror-count :
      (raw : ℕ → Node F) (raw_next : ℕ → ℤ) (main shadow : Graph F)
      → shadow.node_count ≤ main.node_count
      → (mirror raw raw_next main 0 (record { shadow = shadow; mapped = false })).shadow.node_count
        ≤ main.node_count
  unfolding mirror
  mirror-count raw raw_next main shadow small = ground arith
