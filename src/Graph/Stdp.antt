-- ===== src/Graph/Stdp.antt =====
-- What spike-timing updates (`apply_stdp` of src/core/cluster_graph.h) do to an edge array.
use engram_core.Prelude.{
  ◌+◌, ◌==◌, ==_iff, in_range, Option, none, some, reverse, ℕ, ◌≡◌, refl, ap, ◌∙◌, List, [], ◌∷◌,
  Bool, true, false, arith, ℤ, map, All, Bool-cases, inl, inr, if◌then◌else◌, ◌==ℤ◌,
}
use engram_core.Prelude.Float.{Float, IsOrder}
use engram_core.Neuromod.{NeuromodState}
use engram_core.Graph.Node.{Edge}
use engram_core.Graph.Arena.{Graph}
use engram_core.Graph.Chain.{
  clamp_weight, nudge_first, stdp_along, apply_stdp, apply_chain_stdp, assign_credit, modify, nudge,
  stdp_delta, credit_back, hop,
}

module _ {F : Float} where
  -- Between 0 and 5.
  abbrev pub InRange : Edge F → Type 0
  InRange e = (F.ltb e.weight (F.lit 0 1) ≡ false) × (F.ltb (F.lit 5 1) e.weight ≡ false)

  module _ (o : IsOrder F) (five : F.ltb (F.lit 0 1) (F.lit 5 1) ≡ true) where
    clamp_weight-InRange :
        (w : F.Carrier)
        → (F.ltb (clamp_weight F w) (F.lit 0 1) ≡ false)
          × (F.ltb (F.lit 5 1) (clamp_weight F w) ≡ false)
    unfolding clamp_weight
    clamp_weight-InRange w = ground (
      arith,
      o.irrefl (F.lit 0 1),
      o.irrefl (F.lit 5 1),
      o.asymm (F.lit 0 1) (F.lit 5 1),
      o.asymm (F.lit 0 1) w,
      o.asymm w (F.lit 5 1),
      five,
    )

    nudge_first-InRange :
        (t : ℤ) (dw : F.Carrier) (es : List (Edge F))
        → All InRange es
        → All InRange (nudge_first t dw es)
    unfolding nudge_first
    nudge_first-InRange t dw [] h = h
    nudge_first-InRange t dw (e ∷ es) h = step (◌==ℤ◌ e.target t) (nudge_first-InRange t dw es h.1)
      where
        step :
            (b : Bool)
            → All InRange (nudge_first t dw es)
            → All InRange (
                if b
                then record e { weight = clamp_weight F (F.add e.weight dw) } ∷ es
                else e ∷ nudge_first t dw es)
        step true rest = (clamp_weight-InRange (F.add e.weight dw), h.1)
        step false rest = (h.0, rest)

  -- What an edge connects and how.
  abbrev pub key : Edge F → ℤ × ℕ
  key e = (e.target, e.kind)

  map-key-nudge_first :
      (t : ℤ) (dw : F.Carrier) (es : List (Edge F)) → map key (nudge_first t dw es) ≡ map key es
  unfolding nudge_first
  map-key-nudge_first t dw [] = refl
  map-key-nudge_first t dw (e ∷ es) = elim (Bool-cases (◌==ℤ◌ e.target t)) [
    | inl hit ↦ rw hit
    | inr miss ↦ rw miss (ap (◌∷◌ (key e)) (map-key-nudge_first t dw es))
  ]

  -- Only weights change, and those of `h` are between 0 and 5.
  pub record OnlyWeights (g h : Graph F) : Type 0 where
    pub same_keys : (i : ℕ) → map key (h.cortex_memory i).edges ≡ map key (g.cortex_memory i).edges
    pub same_inverse :
        (i : ℕ) → (h.cortex_memory i).inverse_edges ≡ (g.cortex_memory i).inverse_edges
    pub in_range : (i : ℕ) → All InRange (h.cortex_memory i).edges

  abbrev pub AllInRange : Graph F → Type 0
  AllInRange g = (i : ℕ) → All InRange (g.cortex_memory i).edges

  OnlyWeights-refl : (g : Graph F) → AllInRange g → OnlyWeights g g
  OnlyWeights-refl g h = record { same_keys = λ i. refl; same_inverse = λ i. refl; in_range = h }

  OnlyWeights-trans : {g h k : Graph F} → OnlyWeights g h → OnlyWeights h k → OnlyWeights g k
  OnlyWeights-trans v w = record {
    same_keys = λ i. w.same_keys i ∙ v.same_keys i;
    same_inverse = λ i. w.same_inverse i ∙ v.same_inverse i;
    in_range = w.in_range;
  }

  module _ (o : IsOrder F) (five : F.ltb (F.lit 0 1) (F.lit 5 1) ≡ true) where
    nudge-OnlyWeights :
        (p : ℕ) (t : ℤ) (dw : F.Carrier) (g : Graph F)
        → AllInRange g
        → OnlyWeights g (modify p (nudge t dw) g)
    unfolding modify nudge
    nudge-OnlyWeights p t dw g h = record {
      same_keys = λ i. elim (Bool-cases (i == p)) [
        | inl here ↦
            rw (here, (==_iff i p).0 here) (map-key-nudge_first t dw (g.cortex_memory p).edges)
        | inr there ↦ rw there
      ];
      same_inverse = λ i. elim (Bool-cases (i == p)) [
        | inl here ↦ rw (here, (==_iff i p).0 here)
        | inr there ↦ rw there
      ];
      in_range = λ i. elim (Bool-cases (i == p)) [
        | inl here ↦ rw here (nudge_first-InRange o five t dw (g.cortex_memory p).edges (h p))
        | inr there ↦ rw there (h i)
      ];
    }

    apply_stdp-OnlyWeights :
        (scale : NeuromodState F) (a b : ℤ) (dt : F.Carrier) (g : Graph F)
        → AllInRange g
        → OnlyWeights g (apply_stdp scale a b dt g)
    unfolding apply_stdp
    apply_stdp-OnlyWeights scale a b dt g h =
        cases (in_range g.node_count a) (in_range g.node_count b)
      where
        cases :
            (p q : Option ℕ)
            → OnlyWeights g (elim p [
              | none ↦ g
              | some i ↦ elim q [ none ↦ g | some j ↦ modify i (nudge b (stdp_delta F scale dt)) g ]
            ])
        cases none q = OnlyWeights-refl g h
        cases (some i) none = OnlyWeights-refl g h
        cases (some i) (some j) = nudge-OnlyWeights i b (stdp_delta F scale dt) g h

    stdp_along-OnlyWeights :
        (scale : NeuromodState F) (dt : F.Carrier) (chain : List ℤ) (g : Graph F)
        → AllInRange g
        → OnlyWeights g (stdp_along scale dt chain g)
    unfolding stdp_along
    stdp_along-OnlyWeights scale dt [] g h = OnlyWeights-refl g h
    stdp_along-OnlyWeights scale dt (a ∷ []) g h = OnlyWeights-refl g h
    stdp_along-OnlyWeights scale dt (a ∷ b ∷ rest) g h =
        let first = apply_stdp-OnlyWeights scale a b dt g h in
        OnlyWeights-trans first
          (stdp_along-OnlyWeights scale dt (b ∷ rest) (apply_stdp scale a b dt g) first.in_range)

    credit_back-OnlyWeights :
        (scale : NeuromodState F) (reward gamma : F.Carrier) (age : ℕ) (rev : List ℤ) (g : Graph F)
        → AllInRange g
        → OnlyWeights g (credit_back scale reward gamma age rev g)
    unfolding credit_back
    credit_back-OnlyWeights scale reward gamma age [] g h = OnlyWeights-refl g h
    credit_back-OnlyWeights scale reward gamma age (b ∷ []) g h = OnlyWeights-refl g h
    credit_back-OnlyWeights scale reward gamma age (b ∷ a ∷ rest) g h =
        let dt = hop F (F.ltb (F.lit 0 1) (F.mul reward (F.pow gamma (age + 1)))) in
        let first = apply_stdp-OnlyWeights scale a b dt g h in
        OnlyWeights-trans first (
          credit_back-OnlyWeights scale reward gamma (age + 1) (a ∷ rest)
            (apply_stdp scale a b dt g) first.in_range)

    -- Where `<` orders the numbers, 0 is below 5 and all weights of forward edges lie between 0 and 5:
    -- neither `apply_chain_stdp` nor `assign_credit` adds, drops, redirects or retypes an edge or touches
    -- an inverse edge, and all weights stay between 0 and 5, whatever reward and plasticity are.
    pub plasticity-OnlyWeights :
        (scale : NeuromodState F) (reward gamma : F.Carrier) (g : Graph F)
        → AllInRange g
        → OnlyWeights g (apply_chain_stdp scale reward g)
          × OnlyWeights g (assign_credit scale reward gamma g)
    unfolding apply_chain_stdp assign_credit
    plasticity-OnlyWeights scale reward gamma g h = (
      stdp_along-OnlyWeights scale (hop F (F.ltb (F.lit 0 1) reward)) g.chain g h,
      credit_back-OnlyWeights scale reward gamma 0 (reverse g.chain) g h,
    )
