-- ===== src/Planner/Argmax.antt =====
-- The choice that both search loops of `collect_motor_chain` (src/core/fpsan_sandbox.h) make.
use engram_core.Prelude.{
  ◌≡◌, ◌∙◌, refl, ◌⊎◌, inl, inr, List, [], ◌∷◌, true, false, Option, none, some, ℤ, All, Bool-cases,
}
use engram_core.Prelude.Float.{Float, IsOrder}
use engram_core.Graph.Node.{Edge}
use engram_core.Planner.{keep_better, argmax}

module _ {F : Float} (score : Edge F → Option F.Carrier) where
  -- An edge of the list has that target and that score.
  abbrev pub Offers : ℤ × F.Carrier → List (Edge F) → Type 0
  Offers best [] = true ≡ false
  Offers best (e ∷ es) = (e.target ≡ best.0) × (score e ≡ some best.1) ⊎ Offers best es

  abbrev pub NoBetter : F.Carrier → List (Edge F) → Type 0
  NoBetter v es = All (λ e. (w : F.Carrier) → score e ≡ some w → F.ltb v w ≡ false) es

  -- A candidate that no other beats, or the start where none is above it.
  pub record Best (start best : ℤ × F.Carrier) (es : List (Edge F)) : Type 0 where
    pub chosen : Offers best es ⊎ (best ≡ start)
    pub above : NoBetter best.1 es

  module _ (o : IsOrder F) where
    keep_better-rises :
        (t : ℤ) (offer : Option F.Carrier) (best : ℤ × F.Carrier) (w : F.Carrier)
        → F.ltb best.1 w ≡ false
        → F.ltb (keep_better F t offer best).1 w ≡ false
    unfolding keep_better
    keep_better-rises t none best w h = h
    keep_better-rises t (some v) best w h = elim (Bool-cases (F.ltb best.1 v)) [
      | inl up ↦ rw up (o.ge_trans v best.1 w (o.asymm best.1 v up) h)
      | inr down ↦ rw down h
    ]

    argmax-rises :
        (es : List (Edge F)) (best : ℤ × F.Carrier) (w : F.Carrier)
        → F.ltb best.1 w ≡ false
        → F.ltb (argmax score es best).1 w ≡ false
    unfolding argmax
    argmax-rises [] best w h = h
    argmax-rises (e ∷ es) best w h =
        argmax-rises es (keep_better F e.target (score e) best) w
          (keep_better-rises e.target (score e) best w h)

    -- After a round the offer is not above the best, and the best is the offer or as it was.
    keep_better-Best :
        (t : ℤ) (offer : Option F.Carrier) (best : ℤ × F.Carrier)
        → let after = keep_better F t offer best in
          ((t ≡ after.0) × (offer ≡ some after.1) ⊎ (after ≡ best))
          × ((w : F.Carrier) → offer ≡ some w → F.ltb after.1 w ≡ false)
    unfolding keep_better
    keep_better-Best t none best = (inr refl, λ w q. cc)
    keep_better-Best t (some v) best = elim (Bool-cases (F.ltb best.1 v)) [
      | inl up ↦ rw up (inl (refl, refl), λ w p. let e : v ≡ w = cc in rw (← e) (o.irrefl v))
      | inr down ↦ rw down (inr refl, λ w p. let e : v ≡ w = cc in rw (← e) down)
    ]

    pub argmax-Best :
        (es : List (Edge F)) (start : ℤ × F.Carrier) → Best start (argmax score es start) es
    unfolding argmax
    argmax-Best [] start = record { chosen = inr refl; above = tt }
    argmax-Best (e ∷ es) start =
        let mid = keep_better F e.target (score e) start in
        let round = keep_better-Best e.target (score e) start in
        let rest = argmax-Best es mid in
        record {
          chosen = elim rest.chosen [
            | inl offered ↦ inl (inr offered)
            | inr same ↦ elim round.0 [
              | inl new ↦ inl (inl (rw same new))
              | inr old ↦ inr (same ∙ old)
            ]
          ];
          above = (λ w q. argmax-rises es mid w (round.1 w q), rest.above);
        }
