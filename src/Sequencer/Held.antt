-- ===== src/Sequencer/Held.antt =====
-- Spreading keeps nodes alive and clamped as they were (src/core/cluster_graph.h, src/core/fpsan_sequencer.h).
use engram_core.Prelude.{
  ℕ, zero, suc, ◌+◌, ◌≡◌, ◌∙◌, refl, sym, ap, inl, inr, List, [], ◌∷◌, Bool, true, false, ◌&&◌, not,
  Option, none, some, ◌==◌, if◌then◌else◌, Bool-cases, ℕ_discrete, ℤ, pos, negsuc, in_range, take,
  update, update_self, update_ne,
}
use engram_core.Prelude.Float.{Float}
use engram_core.Neuromod.{NeuromodState}
use engram_core.Graph.Node.{Node, Edge, add_voltage, edge_temporal}
use engram_core.Graph.Arena.{Graph}
use engram_core.Graph.Chain.{modify}
use engram_core.Graph.Spread.{
  Call, cutoff, propagated, activation_of, set_activation, raise_activation, spread_fanout_cap,
  max_reasoning_depth,
}
use engram_core.Graph.Activity.{
  refresh_loop, mark_fired, activation_loop, spread_rounds, spread_activation,
}
use engram_core.Sequencer.{feed_goals, feed_spike}

module _ {F : Float} where
  -- `h` has the nodes of `g`, alive and clamped as they were.
  pub record Held (g h : Graph F) : Type 0 where
    pub count : h.node_count ≡ g.node_count
    pub alive : (i : ℕ) → (h.cortex_memory i).alive ≡ (g.cortex_memory i).alive
    pub clamped : (i : ℕ) → (h.cortex_memory i).clamped ≡ (g.cortex_memory i).clamped

  same-Held : (g : Graph F) → Held g g
  same-Held g = record { count = refl; alive = λ i. refl; clamped = λ i. refl }

  pub then-Held : {g h k : Graph F} → Held g h → Held h k → Held g k
  then-Held p q = record {
    count = q.count ∙ p.count;
    alive = λ i. q.alive i ∙ p.alive i;
    clamped = λ i. q.clamped i ∙ p.clamped i;
  }

  modify-Held :
      (t : ℕ) (f : Node F → Node F) (g : Graph F)
      → ((n : Node F) → ((f n).alive ≡ n.alive) × ((f n).clamped ≡ n.clamped))
      → Held g (modify t f g)
  unfolding modify
  modify-Held t f g keeps = record {
    count = refl;
    alive = λ i. elim (ℕ_discrete i t) [
      | yes same ↦
          ap (λ k. (update g.cortex_memory t (f (g.cortex_memory t)) k).alive) same
          ∙ ap (λ (n : Node F). n.alive) (update_self g.cortex_memory t (f (g.cortex_memory t)))
          ∙ (keeps (g.cortex_memory t)).0
          ∙ ap (λ k. (g.cortex_memory k).alive) (sym same)
      | no other ↦
          ap (λ (n : Node F). n.alive) (update_ne g.cortex_memory t i (f (g.cortex_memory t)) other)
    ];
    clamped = λ i. elim (ℕ_discrete i t) [
      | yes same ↦
          ap (λ k. (update g.cortex_memory t (f (g.cortex_memory t)) k).clamped) same
          ∙ ap (λ (n : Node F). n.clamped) (update_self g.cortex_memory t (f (g.cortex_memory t)))
          ∙ (keeps (g.cortex_memory t)).1
          ∙ ap (λ k. (g.cortex_memory k).clamped) (sym same)
      | no other ↦
          ap (λ (n : Node F). n.clamped)
            (update_ne g.cortex_memory t i (f (g.cortex_memory t)) other)
    ];
  }

  set_activation-Held : (t : ℕ) (v : F.Carrier) (g : Graph F) → Held g (set_activation t v g)
  unfolding set_activation
  set_activation-Held t v g = modify-Held t (λ n. record n { activation = v }) g (λ n. (refl, refl))

  add_voltage-Held : (t : ℕ) (v : F.Carrier) (g : Graph F) → Held g (modify t (add_voltage v) g)
  unfolding add_voltage
  add_voltage-Held t v g = modify-Held t (add_voltage v) g (λ n. (refl, refl))

  mark_fired-Held : (t : ℕ) (g : Graph F) → Held g (mark_fired t g)
  unfolding mark_fired
  mark_fired-Held t g =
      modify-Held t (λ n. record n { fired_this_query = true }) g (λ n. (refl, refl))

  if-Held : (b : Bool) (g h k : Graph F) → Held g h → Held g k → Held g (if b then h else k)
  if-Held true g h k p q = p
  if-Held false g h k p q = q

  raise_activation-Held : (t : ℕ) (v : F.Carrier) (g : Graph F) → Held g (raise_activation t v g)
  unfolding raise_activation
  raise_activation-Held t v g = if-Held _ g _ _ (set_activation-Held t v g) (same-Held g)

  refresh_loop-Held :
      (act : F.Carrier) (es : List (Edge F)) (g : Graph F) → Held g (refresh_loop act es g)
  unfolding refresh_loop
  refresh_loop-Held act [] g = same-Held g
  refresh_loop-Held act (e ∷ es) g =
      then-Held (one (in_range g.node_count e.target)) (refresh_loop-Held act es _)
    where
      sp : F.Carrier
      sp = propagated F act e.weight

      one :
          (o : Option ℕ)
          → Held g (elim o as (λ x. Graph F) [
            | none ↦ g
            | some t ↦ if (g.cortex_memory t).is_binding_node then g else raise_activation t sp g
          ])
      one none = same-Held g
      one (some t) = if-Held _ g g _ (same-Held g) (raise_activation-Held t sp g)

  abbrev Holds : Call F → Type 0
  Holds call = (s : ℤ) (v : F.Carrier) (g : Graph F) → Held g (call s v g).0

  if_pair-Held :
      (b : Bool) (g : Graph F) (x y : Graph F × ℕ)
      → Held g x.0
      → Held g y.0
      → Held g (if b then x else y).0
  if_pair-Held true g x y p q = p
  if_pair-Held false g x y p q = q

  activation_loop-Held :
      (call : Call F)
      → Holds call
      → (strength : F.Carrier) (es : List (Edge F)) (g : Graph F) (activated : ℕ)
      → Held g (activation_loop call strength es g activated).0
  unfolding activation_loop
  activation_loop-Held call holds strength [] g activated = same-Held g
  activation_loop-Held call holds strength (e ∷ es) g activated =
      go (in_range g.node_count e.target) (λ h n. activation_loop-Held call holds strength es h n)
    where
      prop : F.Carrier
      prop = propagated F strength e.weight

      go :
          (o : Option ℕ)
          → ((h : Graph F) (n : ℕ) → Held h (activation_loop call strength es h n).0)
          → let out : Graph F × ℕ = elim o [
            | none ↦ activation_loop call strength es g activated
            | some t ↦
                let spiked = modify t (add_voltage prop) g in
                let act = activation_of spiked t in
                let fired = (g.cortex_memory t).fired_this_query in
                let (h, n) = call e.target act (mark_fired t spiked) in
                let (h', n') = call e.target prop (set_activation t prop g) in
                if (g.cortex_memory t).is_binding_node
                then (if e.kind == edge_temporal
                    then (if F.ltb (F.lit 15 10) act && not fired
                        then activation_loop call strength es h (activated + n)
                        else if fired
                        then activation_loop call strength es
                            (refresh_loop act
                              (take spread_fanout_cap (spiked.cortex_memory t).edges)
                              spiked)
                            activated
                        else activation_loop call strength es spiked activated)
                    else activation_loop call strength es g activated)
                else if F.ltb (activation_of g t) prop
                then activation_loop call strength es h' (activated + n')
                else activation_loop call strength es g activated
          ] in
            Held g out.0
      go none ih = ih g activated
      go (some t) ih =
          let spiked = modify t (add_voltage prop) g in
          let spike = add_voltage-Held t prop g in
          let act = activation_of spiked t in
          let fired = (g.cortex_memory t).fired_this_query in
          let shot = call e.target act (mark_fired t spiked) in
          let fire =
            then-Held spike
              (then-Held (mark_fired-Held t spiked) (holds e.target act (mark_fired t spiked))) in
          let seen = call e.target prop (set_activation t prop g) in
          let visit =
            then-Held (set_activation-Held t prop g)
              (holds e.target prop (set_activation t prop g)) in
          let fresh =
            refresh_loop act (take spread_fanout_cap (spiked.cortex_memory t).edges) spiked in
          let refresh = then-Held spike (
            refresh_loop-Held act (take spread_fanout_cap (spiked.cortex_memory t).edges) spiked) in
          let again = activation_loop call strength es in
          let skip = again g activated in
          let fires = F.ltb (F.lit 15 10) act && not fired in
          let rest = if fired then again fresh activated else again spiked activated in
          let hit = if fires then again shot.0 (activated + shot.1) else rest in
          let bound = if e.kind == edge_temporal then hit else skip in
          let plain =
            if F.ltb (activation_of g t) prop then again seen.0 (activated + seen.1) else skip in
          let rest_held =
            if_pair-Held fired g (again fresh activated) (again spiked activated)
              (then-Held refresh (ih fresh activated)) (then-Held spike (ih spiked activated)) in
          let hit_held =
            if_pair-Held fires g (again shot.0 (activated + shot.1)) rest
              (then-Held fire (ih shot.0 (activated + shot.1))) rest_held in
          if_pair-Held (g.cortex_memory t).is_binding_node g bound plain
            (if_pair-Held (e.kind == edge_temporal) g hit skip hit_held (ih g activated))
            (if_pair-Held (F.ltb (activation_of g t) prop) g (again seen.0 (activated + seen.1))
              skip (then-Held visit (ih seen.0 (activated + seen.1))) (ih g activated))

  spread_rounds-Held :
      (m : NeuromodState F) (rounds : ℕ) (outermost : Bool)
      → Holds (spread_rounds m rounds outermost)
  unfolding spread_rounds
  spread_rounds-Held m zero outermost s v g = same-Held g
  spread_rounds-Held m (suc rounds) outermost s v g =
      go (in_range g.node_count s) (spread_rounds-Held m rounds false)
    where
      go :
          (o : Option ℕ)
          → Holds (spread_rounds m rounds false)
          → let out : Graph F × ℕ = elim o [
            | none ↦ (g, 0)
            | some i ↦
                if F.ltb v (cutoff F m)
                then (g, 0)
                else activation_loop
                    (spread_rounds m rounds false)
                    v
                    (take spread_fanout_cap (g.cortex_memory i).edges)
                    (if outermost then raise_activation i v g else g)
                    1
          ] in
            Held g out.0
      go none holds = same-Held g
      go (some i) holds =
          let start = if outermost then raise_activation i v g else g in
          let raised =
            if-Held outermost g (raise_activation i v g) g (raise_activation-Held i v g)
              (same-Held g) in
          elim (Bool-cases (F.ltb v (cutoff F m))) [
            | inl weak ↦ rw weak (same-Held g)
            | inr strong ↦ rw strong (
                then-Held raised (
                  activation_loop-Held (spread_rounds m rounds false) holds v
                    (take spread_fanout_cap (g.cortex_memory i).edges) start 1))
          ]

  spread_activation-Held : (m : NeuromodState F) → Holds (spread_activation m)
  unfolding spread_activation
  spread_activation-Held m = spread_rounds-Held m max_reasoning_depth true

  pub feed_goals-Held : (m : NeuromodState F) (i n : ℕ) (g : Graph F) → Held g (feed_goals m i n g)
  unfolding feed_goals
  feed_goals-Held m i zero g = same-Held g
  feed_goals-Held m i (suc n) g =
      then-Held (if-Held _ g _ g (spread_activation-Held m (pos i) (F.lit 1 1) g) (same-Held g))
        (feed_goals-Held m (i + 1) n _)

  pub feed_spike-Held :
      (m : NeuromodState F) (spike : ℤ) (v : F.Carrier) (g : Graph F)
      → Held g (feed_spike m spike v g)
  unfolding feed_spike
  feed_spike-Held m (negsuc _) v g = same-Held g
  feed_spike-Held m (pos id) v g = spread_activation-Held m (pos id) v g
