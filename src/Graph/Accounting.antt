-- ===== src/Graph/Accounting.antt =====
-- Where the slots of the arena are (src/core/cluster_graph.h): `alive_count` against `spawn` and `kill`.
use engram_core.Prelude.{
  ◌&&◌, not, ℕ, zero, suc, ◌+◌, ◌≤◌, ◌<◌, ◌≡◌, refl, sym, inl, inr, List, [], ◌∷◌, true, ltb, ◌==◌,
  ==_iff, if◌then◌else◌, update, update_self, update_ne, length, ℤ, subst, Bool-cases, arith, ap,
}
use engram_core.Prelude.Float.{Float}
use engram_core.Graph.Node.{Node, init_node}
use engram_core.Graph.Arena.{Graph, cortex_capacity, init, kill, dead_node}
use engram_core.Graph.FreeList.{IsArena, Spawned, init-IsArena, spawn-Spawned, kill-IsArena}
use engram_core.Graph.Lifetime.{Use, Reach}
use engram_core.Graph.Predict.{sum_alive, alive_count}

module _ (F : Float) where
  weigh_fresh : ◌≡◌ {A = ℕ} (if (init_node {F = F}).alive then 1 else 0) 1
  unfolding init_node
  weigh_fresh = refl

module _ {F : Float} where
  abbrev live_below : (ℕ → Node F) → Graph F → ℕ → ℕ
  live_below memory g n = sum_alive (λ n. 1) (record g { cortex_memory = memory }) n

  -- A write above the bound does not count.
  live_below-above :
      (memory : ℕ → Node F) (g : Graph F) (i n : ℕ) (v : Node F)
      → n ≤ i
      → live_below (update memory i v) g n ≡ live_below memory g n
  unfolding sum_alive
  live_below-above memory g i zero v h = refl
  live_below-above memory g i (suc n) v h =
      rw (update_ne memory i n v (omega arith), live_below-above memory g i n v (omega arith)) refl

  abbrev weigh : Node F → ℕ
  weigh n = if n.alive then 1 else 0

  live_below-update :
      (memory : ℕ → Node F) (g : Graph F) (i n : ℕ) (v : Node F)
      → i < n
      → live_below (update memory i v) g n + weigh (memory i) ≡ live_below memory g n + weigh v
  unfolding sum_alive
  live_below-update memory g i zero v h = omega arith
  live_below-update memory g i (suc n) v h = elim (Bool-cases (i == n)) [
    | inl here ↦
        rw
          (
            sym ((==_iff i n).0 here),
            update_self memory i v,
            live_below-above memory g i i v (omega arith),
          )
          (omega arith)
    | inr there ↦
        let rest = live_below-update memory g i n v (ground arith) in
        rw (update_ne memory i n v (ground arith)) (omega arith)
  ]

  live_below-memory :
      (g h : Graph F) (n : ℕ) → sum_alive (λ n. 1) h n ≡ live_below h.cortex_memory g n
  unfolding sum_alive
  live_below-memory g h zero = refl
  live_below-memory g h (suc n) = rw (live_below-memory g h n) refl

  abbrev pub Balanced : Graph F → List ℕ → Type 0
  Balanced g xs = alive_count g + length xs ≡ g.node_count

  init-live_below :
      (raw : ℕ → Node F) (raw_next : ℕ → ℤ) (k : ℕ) (g : Graph F) (n : ℕ)
      → n ≤ (init raw raw_next k g).node_count
      → sum_alive (λ n. 1) (init raw raw_next k g) n ≡ n
  unfolding sum_alive init init_node
  init-live_below raw raw_next k g zero h = refl
  init-live_below raw raw_next k g (suc n) h =
      let rest = init-live_below raw raw_next k g n (omega arith) in ground arith

  live_below-next :
      (memory : ℕ → Node F) (g : Graph F) (n : ℕ)
      → live_below memory g (n + 1) ≡ weigh (memory n) + live_below memory g n
  unfolding sum_alive
  live_below-next memory g n =
      subst (λ k. live_below memory g k ≡ weigh (memory n) + live_below memory g n) (the_next n)
        refl
    where
      the_next : (n : ℕ) → suc n ≡ n + 1
      the_next n = omega arith

  spawn-Balanced :
      (g : Graph F) (xs : List ℕ) (r : Graph F × ℤ)
      → IsArena g xs
      → Balanced g xs
      → Spawned g xs r
      → (ys : List ℕ) × IsArena r.0 ys × Balanced r.0 ys
  unfolding alive_count
  spawn-Balanced g (x ∷ xs) (g', id) v b s =
      let dead : (ltb x g.node_count && not (g.cortex_memory x).alive) ≡ true =
        ground (arith, v.dead_iff x) in
      let live = live_below-update g.cortex_memory g x g.node_count init_node (ground arith) in
      let old = live_below-memory g g g.node_count in
      let spent : weigh (g.cortex_memory x) ≡ 0 = ground arith in
      (
        xs,
        s.1,
        rw (s.3, live_below-memory g g' g.node_count, s.2)
            (omega (arith, live, spent, old, b, weigh_fresh F)),
      )
  spawn-Balanced g [] (g', id) v b s = elim (Bool-cases (ltb g.node_count cortex_capacity)) [
    | inl room ↦
        let t = rw room at s in
        let old = live_below-memory g g g.node_count in
        let new =
          live_below-above g.cortex_memory g g.node_count g.node_count init_node (omega arith) in
        let here = update_self g.cortex_memory g.node_count init_node in
        (
          [],
          t.1,
          rw (t.3, live_below-memory g g' (g.node_count + 1), t.2)
              (omega (
                arith,
                live_below-next (update g.cortex_memory g.node_count init_node) g g.node_count,
                new,
                old,
                b,
                ap weigh here,
                weigh_fresh F,
              )),
        )
    | inr full ↦
        let t = rw full at s in
        ([], subst (λ h. IsArena h []) (sym t.1) v, subst (λ h. Balanced h []) (sym t.1) b)
  ]

  kill-Balanced :
      (g : Graph F) (xs : List ℕ) (id : ℕ)
      → id < g.node_count
      → (g.cortex_memory id).alive ≡ true
      → Balanced g xs
      → Balanced (kill id g) (id ∷ xs)
  unfolding alive_count kill dead_node
  kill-Balanced g xs id low live b =
      let fewer =
        live_below-update g.cortex_memory g id g.node_count (dead_node (g.cortex_memory id)) low in
      let same = live_below-memory g (kill id g) g.node_count in
      let old = live_below-memory g g g.node_count in
      let gone : weigh (g.cortex_memory id) ≡ 1 = rw live refl in
      omega (arith, fewer, same, old, b, gone)

  -- After any history of spawns and kills of live nodes from an initialised graph, the live nodes and
  -- the free slots make up all slots below `node_count`: none has leaked.
  pub slots_conserved :
      (raw : ℕ → Node F) (raw_next : ℕ → ℤ) (n : ℕ) (g₀ : Graph F) {g : Graph F}
      → Reach (init raw raw_next n g₀) g
      → (xs : List ℕ) × IsArena g xs × Balanced g xs
  unfolding alive_count
  slots_conserved raw raw_next n g₀ Reach.here = (
    [],
    init-IsArena raw raw_next n g₀,
    omega (
      arith,
      init-live_below raw raw_next n g₀ (init raw raw_next n g₀).node_count (omega arith),
    ),
  )
  slots_conserved raw raw_next n g₀ (Reach.next r Use.spawned) =
      let (xs, v, b) = slots_conserved raw raw_next n g₀ r in
      spawn-Balanced _ xs _ v b (spawn-Spawned _ xs v)
  slots_conserved raw raw_next n g₀ (Reach.next r (Use.killed id low live)) =
      let (xs, v, b) = slots_conserved raw raw_next n g₀ r in
      (id ∷ xs, kill-IsArena _ xs id v low live, kill-Balanced _ xs id low live b)
