-- ===== src/WorldModel.antt =====
-- The one-step prediction of src/core/fpsan_world_model.h over the graph.
use engram_core.Prelude.{
  ℕ, ◌≡◌, refl, ◌⊎◌, inl, inr, List, none, some, ◌==ℤ◌, if◌then◌else◌, ℤ, pos, negsuc, minus_one,
  in_range,
}
use engram_core.Prelude.Float.{Float, IsOrder, fmin}
use engram_core.Graph.Node.{Edge, edge_causes, edge_temporal}
use engram_core.Graph.Arena.{Graph}
use engram_core.Graph.Predict.{best_edge}
use engram_core.Graph.Strongest.{Strongest, best_edge-Strongest}

pub record WorldModelStep (F : Float) : Type 0 where
  pub predicted_next : ℤ
  pub confidence : F.Carrier

module _ {F : Float} where
  unfoldable pub confident : ℕ → F.Carrier → WorldModelStep F
  confident t w = record {
    predicted_next = pos t;
    confidence = fmin F (F.lit 1 1) (F.div w (F.lit 3 1));
  }

  unfoldable pub unknown : WorldModelStep F
  unknown = record { predicted_next = minus_one; confidence = F.lit 0 1 }

  unfoldable pub pick : ℤ × F.Carrier → WorldModelStep F → WorldModelStep F
  unfolding confident
  pick best otherwise = elim best.0 [ pos t ↦ confident t best.1 | negsuc _ ↦ otherwise ]

  unfoldable pub world_model_predict_next : ℤ → Graph F → WorldModelStep F
  unfolding pick unknown
  world_model_predict_next state g = elim (in_range g.node_count state) [
    | none ↦ unknown
    | some s ↦
        let es = (g.cortex_memory s).edges in
        pick (best_edge edge_causes es) (pick (best_edge edge_temporal es) unknown)
  ]

  unfoldable pub world_model_transition_error : ℤ → ℤ → Graph F → F.Carrier
  unfolding world_model_predict_next
  world_model_transition_error from_id actual g =
      let step = world_model_predict_next from_id g in
      elim step.predicted_next [
        | negsuc _ ↦ F.lit 1 1
        | pos t ↦ if ◌==ℤ◌ (pos t) actual then F.sub (F.lit 1 1) step.confidence else F.lit 1 1
      ]

  -- What a prediction `step` from the edges `es` rests on.
  abbrev pub Explained : List (Edge F) → WorldModelStep F → Type 0
  Explained es step =
      ((t : ℕ) × (w : F.Carrier) × (step ≡ confident t w) × Strongest edge_causes es (pos t, w))
      ⊎ ((n : ℕ) × (v : F.Carrier) × Strongest edge_causes es (negsuc n, v)
          × (((t : ℕ) × (w : F.Carrier) × (step ≡ confident t w)
                × Strongest edge_temporal es (pos t, w))
              ⊎ ((m : ℕ) × (w : F.Carrier) × (step ≡ unknown)
                  × Strongest edge_temporal es (negsuc m, w))))

  pick-Explained :
      (es : List (Edge F)) (ca te : ℤ × F.Carrier)
      → Strongest edge_causes es ca
      → Strongest edge_temporal es te
      → Explained es (pick ca (pick te unknown))
  unfolding pick
  pick-Explained es (pos t, w) te c h = inl (t, w, refl, c)
  pick-Explained es (negsuc n, v) (pos t, w) c h = inr (n, v, c, inl (t, w, refl, h))
  pick-Explained es (negsuc n, v) (negsuc m, w) c h = inr (n, v, c, inr (m, w, refl, h))

  -- From a slot of the arena the prediction is a strongest `EDGE_CAUSES` edge with a target; without
  -- one, a strongest `EDGE_TEMPORAL` edge with a target; without either, unknown.
  pub world_model_predict_next-Explained :
      IsOrder F
      → (state : ℤ) (s : ℕ) (g : Graph F) → in_range g.node_count state ≡ some s
      → Explained (g.cortex_memory s).edges (world_model_predict_next state g)
  unfolding world_model_predict_next
  world_model_predict_next-Explained o state s g h =
      let es = (g.cortex_memory s).edges in
      rw (world_model_predict_next, h)
        (pick-Explained es (best_edge edge_causes es) (best_edge edge_temporal es)
          (best_edge-Strongest o edge_causes es) (best_edge-Strongest o edge_temporal es))
