-- ===== src/Graph/Lifetime.antt =====
-- Histories of `spawn` and `kill` on ClusterGraph (src/core/cluster_graph.h).
use engram_core.Prelude.{
  subst, sym, ℕ, ◌<◌, ◌≡◌, ◌∙◌, inl, inr, List, [], ◌∷◌, true, false, ltb, ltb→lt, arith, ℤ, pos,
  Bool-cases,
}
use engram_core.Prelude.Float.{Float}
use engram_core.Graph.Node.{Node, init_node}
use engram_core.Graph.Arena.{Graph, cortex_capacity, init, spawn, kill}
use engram_core.Graph.FreeList.{
  IsArena, Spawned, init-IsArena, spawn-Spawned, kill-IsArena, pos_inj,
}

-- What the program does to the arena: it spawns, and it kills live nodes.
module _ {F : Float} where
  pub data Use (g : Graph F) : Graph F → Type 0 where
    spawned : Use g (spawn g).0
    killed : (id : ℕ) → id < g.node_count → (g.cortex_memory id).alive ≡ true → Use g (kill id g)

  pub data Reach (g : Graph F) : Graph F → Type 0 where
    here : Reach g g
    next : {h k : Graph F} → Reach g h → Use h k → Reach g k

  spawn-IsArena :
      (g : Graph F) (xs : List ℕ) → IsArena g xs → (ys : List ℕ) × IsArena (spawn g).0 ys
  spawn-IsArena g [] v = elim (Bool-cases (ltb g.node_count cortex_capacity)) [
    | inl room ↦ ([], (rw room at (spawn-Spawned g [] v)).1)
    | inr full ↦ ([], subst (λ h. IsArena h []) (sym (rw full at (spawn-Spawned g [] v)).1) v)
  ]
  spawn-IsArena g (x ∷ xs) v = (xs, (spawn-Spawned g (x ∷ xs) v).1)

  pub Reach-IsArena :
      {g h : Graph F} → (xs : List ℕ) × IsArena g xs → Reach g h → (xs : List ℕ) × IsArena h xs
  Reach-IsArena v here = v
  Reach-IsArena v (next r spawned) = let (xs, w) = Reach-IsArena v r in spawn-IsArena _ xs w
  Reach-IsArena v (next r (killed id lt live)) =
      let (xs, w) = Reach-IsArena v r in (id ∷ xs, kill-IsArena _ xs id w lt live)

  -- After any history of spawns and kills of live nodes from an initialised graph, a slot that
  -- `spawn` returns lay above the count or was dead, is below the capacity, and is alive
  -- afterwards.
  pub spawn_no_double :
      (raw : ℕ → Node F) (raw_next : ℕ → ℤ) (n : ℕ) (g₀ g : Graph F) (i : ℕ)
      → Reach (init raw raw_next n g₀) g
      → (spawn g).1 ≡ pos i
      → (i < g.node_count → (g.cortex_memory i).alive ≡ false)
        × (i < cortex_capacity)
        × (((spawn g).0.cortex_memory i).alive ≡ true)
  unfolding init_node
  spawn_no_double raw raw_next n g₀ g i r e =
      let (xs, v) = Reach-IsArena ([], init-IsArena raw raw_next n g₀) r in
      go xs v (spawn-Spawned g xs v)
    where
      go :
          (xs : List ℕ)
          → IsArena g xs
          → Spawned g xs (spawn g)
          → (i < g.node_count → (g.cortex_memory i).alive ≡ false)
            × (i < cortex_capacity)
            × (((spawn g).0.cortex_memory i).alive ≡ true)
      go [] v s = elim (Bool-cases (ltb g.node_count cortex_capacity)) [
        | inl room ↦
            let t = rw room at s in
            let same : i ≡ g.node_count = pos_inj (sym e ∙ t.0) in
            (
              λ h. absurd (omega (arith, same)),
              omega (arith, same, ltb→lt _ _ room),
              rw (t.2, same) (ground arith),
            )
        | inr full ↦ cc (sym e ∙ (rw full at s).0)
      ]
      go (x ∷ xs) v s =
          let d = v.dead_iff x in
          let same : i ≡ x = pos_inj (sym e ∙ s.0) in
          (
            λ h. ground (arith, d, same),
            ground (arith, d, same, v.few),
            rw (s.2, same) (ground arith),
          )
