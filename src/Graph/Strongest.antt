-- ===== src/Graph/Strongest.antt =====
-- The choice of the strongest edge, by which `predict_chain_typed` (src/core/cluster_graph.h) and the
-- world model (src/core/fpsan_world_model.h) predict.
use engram_core.Prelude.{
  ℕ, zero, suc, ◌<◌, ◌≡◌, refl, sym, ap, ◌⊎◌, inl, inr, List, [], ◌∷◌, Bool, true, false, ◌&&◌,
  Option, none, some, ◌==◌, if◌then◌else◌, ℤ, pos, minus_one, in_range, in_range_bound, subst,
  arith, All,
}
use engram_core.Prelude.Float.{Float, IsOrder}
use engram_core.Graph.Node.{Edge}
use engram_core.Graph.Arena.{Graph}
use engram_core.Graph.Predict.{better, best_from, best_edge, follow_chain, predict_chain_typed}

module _ {F : Float} where
  abbrev pub Holds : ℕ → ℤ × F.Carrier → List (Edge F) → Type 0
  Holds follow best [] = true ≡ false
  Holds follow best (e ∷ es) =
      ((e.kind == follow) ≡ true) × (e.target ≡ best.0) × (e.weight ≡ best.1) ⊎ Holds follow best es

  abbrev pub NoneAbove : ℕ → F.Carrier → List (Edge F) → Type 0
  NoneAbove follow w es = All (λ e. (e.kind == follow) ≡ true → F.ltb w e.weight ≡ false) es

  -- An edge of that type with no heavier one beside it, or -1 and 0 where no weight is above 0.
  pub record Strongest (follow : ℕ) (es : List (Edge F)) (best : ℤ × F.Carrier) : Type 0 where
    pub chosen : Holds follow best es ⊎ (best ≡ (minus_one, F.lit 0 1))
    pub above : NoneAbove follow best.1 es

  module _ (o : IsOrder F) where
    best_from-rises :
        (follow : ℕ) (es : List (Edge F)) (best : ℤ × F.Carrier) (w : F.Carrier)
        → F.ltb best.1 w ≡ false
        → F.ltb (best_from follow es best).1 w ≡ false
    unfolding best_from
    best_from-rises follow [] best w h = h
    best_from-rises follow (e ∷ es) best w h =
        best_from-rises follow es (better follow e best) w
          (step (e.kind == follow && F.ltb best.1 e.weight) refl)
      where
        step :
            (b : Bool)
            → (e.kind == follow && F.ltb best.1 e.weight) ≡ b
            → F.ltb (if b then (e.target, e.weight) else best).1 w ≡ false
        step true q = o.ge_trans e.weight best.1 w (o.asymm best.1 e.weight (ground arith)) h
        step false q = h

    best_from-Strongest :
        (follow : ℕ) (es : List (Edge F)) (best : ℤ × F.Carrier)
        → (Holds follow (best_from follow es best) es ⊎ (best_from follow es best ≡ best))
          × NoneAbove follow (best_from follow es best).1 es
    unfolding best_from
    best_from-Strongest follow [] best = (inr refl, tt)
    best_from-Strongest follow (e ∷ es) best =
        step (e.kind == follow && F.ltb best.1 e.weight) refl
          (best_from-Strongest follow es (better follow e best))
      where
        step :
            (b : Bool)
            → (e.kind == follow && F.ltb best.1 e.weight) ≡ b
            → let mid = if b then (e.target, e.weight) else best in
              (Holds follow (best_from follow es mid) es ⊎ (best_from follow es mid ≡ mid))
                × NoneAbove follow (best_from follow es mid).1 es
              → (Holds follow (best_from follow es mid) (e ∷ es) ⊎ (best_from follow es mid ≡ best))
                × NoneAbove follow (best_from follow es mid).1 (e ∷ es)
        step true q rest = (
          elim rest.0 [
            | inl holds ↦ inl (inr holds)
            | inr same ↦
                inl (inl (ground arith, sym (ap (λ p. p.0) same), sym (ap (λ p. p.1) same)))
          ],
          (
            λ k. best_from-rises follow es (e.target, e.weight) e.weight (o.irrefl e.weight),
            rest.1,
          ),
        )
        step false q rest = (
          elim rest.0 [ inl holds ↦ inl (inr holds) | inr same ↦ inr same ],
          (λ k. best_from-rises follow es best e.weight (ground arith), rest.1),
        )

    -- The edge that the typed prediction chooses is a strongest one of its type: it is on the list, or
    -- there is none of that type above weight 0; and no edge of that type is heavier.
    pub best_edge-Strongest :
        (follow : ℕ) (es : List (Edge F)) → Strongest follow es (best_edge follow es)
    unfolding best_edge
    best_edge-Strongest follow es =
        let both = best_from-Strongest follow es (minus_one, F.lit 0 1) in
        record { chosen = both.0; above = both.1 }

    -- A prediction of at most `steps` slots: each slot is the target of a strongest edge of that type
    -- of the one before it, and the prediction ends early only where that target is no slot.
    abbrev pub Greedy : ℕ → Graph F → ℕ → ℕ → List ℕ → Type 0
    Greedy follow g zero current path = path ≡ []
    Greedy follow g (suc steps) current [] =
        (best : ℤ × F.Carrier) × Strongest follow (g.cortex_memory current).edges best
        × (in_range g.node_count best.0 ≡ none)
    Greedy follow g (suc steps) current (t ∷ ts) =
        (w : F.Carrier) × Strongest follow (g.cortex_memory current).edges (pos t, w)
        × (t < g.node_count)
        × Greedy follow g steps t ts

    follow_chain-Greedy :
        (follow : ℕ) (g : Graph F) (steps current : ℕ)
        → Greedy follow g steps current
            (follow_chain (λ es. (best_edge follow es).0) g steps current)
    unfolding follow_chain
    follow_chain-Greedy follow g zero current = refl
    follow_chain-Greedy follow g (suc steps) current =
        step (in_range g.node_count best.0) refl (follow_chain-Greedy follow g steps)
      where
        best : ℤ × F.Carrier
        best = best_edge follow (g.cortex_memory current).edges

        strongest : Strongest follow (g.cortex_memory current).edges best
        strongest = best_edge-Strongest follow (g.cortex_memory current).edges

        step :
            (r : Option ℕ)
            → in_range g.node_count best.0 ≡ r
            → ((t : ℕ)
                → Greedy follow g steps t (follow_chain (λ es. (best_edge follow es).0) g steps t))
            → Greedy follow g (suc steps) current (elim r [
              | none ↦ []
              | some t ↦ t ∷ follow_chain (λ es. (best_edge follow es).0) g steps t
            ])
        step none q rest = (best, strongest, q)
        step (some t) q rest =
            let found = in_range_bound g.node_count best.0 q in
            (
              best.1,
              subst (λ z. Strongest follow (g.cortex_memory current).edges (z, best.1)) found.1
                  strongest,
              found.0,
              rest t,
            )

    -- `predict_chain_typed` predicts greedily, and stops at `max_steps` slots.
    pub predict_chain_typed-Greedy :
        (start follow max_steps : ℕ) (g : Graph F)
        → Greedy follow g max_steps start (predict_chain_typed start follow max_steps g)
    unfolding predict_chain_typed
    predict_chain_typed-Greedy start follow max_steps g =
        follow_chain-Greedy follow g max_steps start
