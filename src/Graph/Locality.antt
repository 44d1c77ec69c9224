-- ===== src/Graph/Locality.antt =====
-- What a spread (src/core/cluster_graph.h) can touch: only what its edges reach, and only upwards.
use engram_core.Prelude.{
  ℕ, zero, suc, ◌+◌, ◌≡◌, refl, sym, subst, inl, inr, List, [], ◌∷◌, Bool, true, false, ◌&&◌,
  Option, none, some, Bool-cases, if◌then◌else◌, ◌==◌, ==_iff, ℤ, in_range, All,
}
use engram_core.Prelude.Float.{Float, IsOrder}
use engram_core.Neuromod.{NeuromodState}
use engram_core.Graph.Node.{Node, Edge}
use engram_core.Graph.Arena.{Graph}
use engram_core.Graph.Spread.{
  Call, typed_loop, spread_links, spread_typed, spread_typed_inverse, raise_activation,
  set_activation, cutoff, propagated, activation_of, spread_fanout_cap, max_reasoning_depth,
}

module _ {F : Float} where
  -- `h` differs from `g` at most in activations of nodes of `P`, and none of those has fallen.
  pub record Within (P : ℕ → Type 0) (g h : Graph F) : Type 0 where
    pub outside : (i : ℕ) → ¬ P i → h.cortex_memory i ≡ g.cortex_memory i
    pub risen : (i : ℕ) → F.ltb (activation_of h i) (activation_of g i) ≡ false
    pub same_edges : (i : ℕ) → (h.cortex_memory i).edges ≡ (g.cortex_memory i).edges
    pub same_inverse :
        (i : ℕ) → (h.cortex_memory i).inverse_edges ≡ (g.cortex_memory i).inverse_edges
    pub same_count : h.node_count ≡ g.node_count

  -- Every followed edge from inside `P` ends inside `P`.
  abbrev pub Leads : (ℕ → Type 0) → ℕ → ℕ → Edge F → Type 0
  Leads P count follow e =
      (e.kind == follow) ≡ true → (t : ℕ) → in_range count e.target ≡ some t → P t

  abbrev pub Closed : (ℕ → Type 0) → ℕ → (Node F → List (Edge F)) → Graph F → Type 0
  Closed P follow links g =
      (i : ℕ) → P i → All (Leads P g.node_count follow) (links (g.cortex_memory i))

  module _ (o : IsOrder F) (P : ℕ → Type 0) (g₀ : Graph F) where
    Within-start : Within P g₀ g₀
    Within-start = record {
      outside = λ i n. refl;
      risen = λ i. o.irrefl (activation_of g₀ i);
      same_edges = λ i. refl;
      same_inverse = λ i. refl;
      same_count = refl;
    }

    -- A store at a node of `P` that does not lower its activation.
    set_activation-Within :
        (g : Graph F) (s : ℕ) (v : F.Carrier)
        → P s
        → F.ltb (activation_of g s) v ≡ true
        → Within P g₀ g
        → Within P g₀ (set_activation s v g)
    unfolding set_activation
    set_activation-Within g s v p up w = record {
      outside = λ i n. elim (Bool-cases (i == s)) [
        | inl here ↦ absurd (n (subst P (sym ((==_iff i s).0 here)) p))
        | inr there ↦ rw there (w.outside i n)
      ];
      risen = λ i. elim (Bool-cases (i == s)) [
        | inl here ↦
            rw (here, activation_of)
              (o.ge_trans v (activation_of g i) (activation_of g₀ i)
                (o.asymm _ _
                  (subst (λ k. F.ltb (activation_of g k) v ≡ true) (sym ((==_iff i s).0 here)) up))
                (w.risen i))
        | inr there ↦ rw (there, activation_of) (w.risen i)
      ];
      same_edges = λ i. elim (Bool-cases (i == s)) [
        | inl here ↦ rw (here, ← (==_iff i s).0 here) (w.same_edges i)
        | inr there ↦ rw there (w.same_edges i)
      ];
      same_inverse = λ i. elim (Bool-cases (i == s)) [
        | inl here ↦ rw (here, ← (==_iff i s).0 here) (w.same_inverse i)
        | inr there ↦ rw there (w.same_inverse i)
      ];
      same_count = w.same_count;
    }

    raise_activation-Within :
        (g : Graph F) (s : ℕ) (v : F.Carrier)
        → P s
        → Within P g₀ g
        → Within P g₀ (raise_activation s v g)
    unfolding raise_activation
    raise_activation-Within g s v p w = elim (Bool-cases (F.ltb (activation_of g s) v)) [
      | inl up ↦ rw up (set_activation-Within g s v p up w)
      | inr stay ↦ rw stay w
    ]

    -- A call that stays within `P` when its source lies in it.
    abbrev Stays : Call F → Type 0
    Stays call =
        (source : ℤ) (strength : F.Carrier) (g : Graph F)
        → ((s : ℕ) → in_range g₀.node_count source ≡ some s → P s)
        → Within P g₀ g
        → Within P g₀ (call source strength g).0

    typed_loop-Within :
        (call : Call F) (follow : ℕ) (strength : F.Carrier) (es : List (Edge F)) (room : ℕ)
        (g : Graph F) (n : ℕ)
        → Stays call
        → All (Leads P g₀.node_count follow) es
        → Within P g₀ g
        → Within P g₀ (typed_loop call follow strength es room g n).0
    unfolding typed_loop
    typed_loop-Within call follow strength [] room g n st h w = w
    typed_loop-Within call follow strength (e ∷ es) zero g n st h w = w
    typed_loop-Within call follow strength (e ∷ es) (suc room) g n st h w =
        step (e.kind == follow) refl (in_range g.node_count e.target) refl
          (typed_loop-Within call follow strength es (suc room) g n st h.1 w)
          (typed_loop-Within call follow strength es room g n st h.1 w)
          (λ reached.
            typed_loop-Within call follow strength es room called.0 (n + called.1) st h.1
              (st e.target (propagated F strength e.weight) g reached w))
      where
        called : Graph F × ℕ
        called = call e.target (propagated F strength e.weight) g

        skip : Graph F × ℕ
        skip = typed_loop call follow strength es (suc room) g n

        pass : Graph F × ℕ
        pass = typed_loop call follow strength es room g n

        visit : Graph F × ℕ
        visit = typed_loop call follow strength es room called.0 (n + called.1)

        step :
            (k : Bool)
            → (e.kind == follow) ≡ k
            → (r : Option ℕ) → in_range g.node_count e.target ≡ r
            → Within P g₀ skip.0
            → Within P g₀ pass.0
            → (((s : ℕ) → in_range g₀.node_count e.target ≡ some s → P s) → Within P g₀ visit.0)
            → Within P g₀
                (if k
                  then (elim r [
                    | none ↦ skip
                    | some t ↦
                        if F.leb (F.lit 0 1) (activation_of g t)
                          && F.ltb (activation_of g t) (propagated F strength e.weight)
                        then visit
                        else pass
                  ])
                  else skip).0
        step false q r p sk pa vi = sk
        step true q none p sk pa vi = sk
        step true q (some t) p sk pa vi = choose (
            F.leb (F.lit 0 1) (activation_of g t)
            && F.ltb (activation_of g t) (propagated F strength e.weight))
          where
            choose : (b : Bool) → Within P g₀ (if b then visit else pass).0
            choose true = vi (h.0 q)
            choose false = pa

    module _ (m : NeuromodState F) (links : Node F → List (Edge F)) (follow : ℕ)
        (same : (g : Graph F)
          → Within P g₀ g
          → (i : ℕ) → links (g.cortex_memory i) ≡ links (g₀.cortex_memory i))
        (closed : Closed P follow links g₀) where
      spread_links-Stays : (rounds : ℕ) → Stays (spread_links m links rounds follow)
      unfolding spread_links
      spread_links-Stays zero source strength g reached w = w
      spread_links-Stays (suc rounds) source strength g reached w =
          step (in_range g.node_count source) refl (spread_links-Stays rounds)
        where
          loop : ℕ → Graph F × ℕ
          loop s =
              typed_loop (spread_links m links rounds follow) follow strength
                (links (g.cortex_memory s)) spread_fanout_cap (raise_activation s strength g) 1

          step :
              (r : Option ℕ)
              → in_range g.node_count source ≡ r
              → Stays (spread_links m links rounds follow)
              → let out : Graph F × ℕ = elim r [
                | none ↦ (g, 0)
                | some s ↦
                    if F.ltb strength (cutoff F m)
                    then (g, 0)
                    else if F.ltb (activation_of g s) (F.lit 0 1)
                    then (g, 0)
                    else loop s
              ] in
                Within P g₀ out.0
          step none q st = w
          step (some s) q st =
              choose (F.ltb strength (cutoff F m)) (F.ltb (activation_of g s) (F.lit 0 1))
            where
              inside : P s
              inside = reached s (subst (λ c. in_range c source ≡ some s) w.same_count q)

              choose :
                  (a b : Bool) → Within P g₀ (if a then (g, 0) else if b then (g, 0) else loop s).0
              choose true b = w
              choose false true = w
              choose false false =
                  typed_loop-Within (spread_links m links rounds follow) follow strength
                    (links (g.cortex_memory s)) spread_fanout_cap (raise_activation s strength g) 1
                    st
                    (subst (All (Leads P g₀.node_count follow)) (sym (same g w s))
                      (closed s inside))
                    (raise_activation-Within g s strength inside w)

  -- Where `<` orders the numbers, and whatever set of nodes holds the source and is closed under the
  -- edges of the followed type: `spread_typed` changes nothing outside it, changes no edge, and lowers
  -- no activation.
  pub spread_typed-Within :
      IsOrder F
      → (m : NeuromodState F) (P : ℕ → Type 0) (follow : ℕ) (source : ℤ) (strength : F.Carrier)
        (g : Graph F)
      → Closed P follow (λ n. n.edges) g
      → ((s : ℕ) → in_range g.node_count source ≡ some s → P s)
      → Within P g (spread_typed m follow source strength g).0
  unfolding spread_typed
  spread_typed-Within o m P follow source strength g closed inside =
      spread_links-Stays o P g m (λ n. n.edges) follow (λ h w. w.same_edges) closed
        max_reasoning_depth source strength g inside (Within-start o P g)

  -- The same of `spread_typed_inverse` and the inverse edges.
  pub spread_typed_inverse-Within :
      IsOrder F
      → (m : NeuromodState F) (P : ℕ → Type 0) (follow : ℕ) (source : ℤ) (strength : F.Carrier)
        (g : Graph F)
      → Closed P follow (λ n. n.inverse_edges) g
      → ((s : ℕ) → in_range g.node_count source ≡ some s → P s)
      → Within P g (spread_typed_inverse m follow source strength g).0
  unfolding spread_typed_inverse
  spread_typed_inverse-Within o m P follow source strength g closed inside =
      spread_links-Stays o P g m (λ n. n.inverse_edges) follow (λ h w. w.same_inverse) closed
        max_reasoning_depth source strength g inside (Within-start o P g)
