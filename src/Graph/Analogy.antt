-- ===== src/Graph/Analogy.antt =====
-- `scan_analogies` of ClusterGraph (src/core/cluster_graph.h): live nodes with the same fingerprint get
-- analogy edges to each other.
use Prim.Native.Nat.{bit_xor}
use engram_core.Prelude.{
  ℕ, zero, suc, ◌+◌, ◌*◌, ◌%◌, ◌^◌, List, [], ◌∷◌, ◌&&◌, not, ltb, ◌==◌, if◌then◌else◌, length, pos,
  Bool-cases, inl, inr,
}
use engram_core.Prelude.Float.{Float, IsOrder}
use engram_core.Graph.Node.{Edge, add_edge, edge_analogy, prov_unknown}
use engram_core.Graph.Arena.{Graph}
use engram_core.Graph.Chain.{modify}
use engram_core.Graph.AddEdge.{add_edge-IsSoundNode}
use engram_core.Graph.History.{AllSound, modify-AllSound}

module _ {F : Float} where
  unfoldable pub histogram : List (Edge F) → ℕ
  histogram [] = 0
  histogram (e ∷ es) = bit_xor (2 ^ (e.kind % 32)) (histogram es)

  -- A `uint32_t`: the edge count in the low byte, the histogram above it.
  unfoldable pub fingerprint : List (Edge F) → ℕ
  unfolding histogram
  fingerprint es = length es % 256 + (histogram es * 256) % 2 ^ 32

  -- The fingerprints of the live nodes with edges, from slot `i` on, for as long as there is room.
  unfoldable pub sample : Graph F → ℕ → ℕ → ℕ → List (ℕ × ℕ)
  unfolding fingerprint
  sample g zero i room = []
  sample g (suc rest) i zero = []
  sample g (suc rest) i (suc room) =
      let n = g.cortex_memory i in
      let skip = sample g rest (i + 1) (suc room) in
      let taken = sample g rest (i + 1) room in
      if n.alive && not (length n.edges == 0) then (fingerprint n.edges, i) ∷ taken else skip

  unfoldable pub link_both : ℕ → ℕ → Graph F → Graph F
  unfolding modify
  link_both a b g =
      modify b (add_edge (pos a) (F.lit 1 10) edge_analogy prov_unknown)
        (modify a (add_edge (pos b) (F.lit 1 10) edge_analogy prov_unknown) g)

  -- The inner loop; the number is how many pairs may still be linked.
  unfoldable pub link_later : ℕ × ℕ → List (ℕ × ℕ) → ℕ × Graph F → ℕ × Graph F
  unfolding link_both
  link_later a [] (budget, g) = (budget, g)
  link_later a (b ∷ bs) (zero, g) = (zero, g)
  link_later a (b ∷ bs) (suc budget, g) =
      let linked = link_later a bs (budget, link_both a.1 b.1 g) in
      let skip = link_later a bs (suc budget, g) in if a.0 == b.0 then linked else skip

  unfoldable pub link_pairs : List (ℕ × ℕ) → ℕ × Graph F → ℕ × Graph F
  unfolding link_later
  link_pairs [] s = s
  link_pairs (a ∷ rest) s = link_pairs rest (link_later a rest s)

  -- `MAX_SAMPLE` is 1024.
  unfoldable pub scan_analogies : ℕ → Graph F → Graph F
  unfolding sample link_pairs
  scan_analogies max_pairs g =
      if ltb g.node_count 2 then g else (link_pairs (sample g g.node_count 0 1024) (max_pairs, g)).1

  module _ (o : IsOrder F) where
    link_both-AllSound : (a b : ℕ) (g : Graph F) → AllSound g → AllSound (link_both a b g)
    unfolding link_both
    link_both-AllSound a b g h =
        modify-AllSound b (add_edge (pos a) (F.lit 1 10) edge_analogy prov_unknown)
          (modify a (add_edge (pos b) (F.lit 1 10) edge_analogy prov_unknown) g)
          (λ n v. (add_edge-IsSoundNode o (pos a) (F.lit 1 10) edge_analogy prov_unknown n v).0)
          (modify-AllSound a (add_edge (pos b) (F.lit 1 10) edge_analogy prov_unknown) g
            (λ n v. (add_edge-IsSoundNode o (pos b) (F.lit 1 10) edge_analogy prov_unknown n v).0)
            h)

    link_later-AllSound :
        (a : ℕ × ℕ) (bs : List (ℕ × ℕ)) (budget : ℕ) (g : Graph F)
        → AllSound g
        → AllSound (link_later a bs (budget, g)).1
    unfolding link_later
    link_later-AllSound a [] budget g h = h
    link_later-AllSound a (b ∷ bs) zero g h = h
    link_later-AllSound a (b ∷ bs) (suc budget) g h = elim (Bool-cases (a.0 == b.0)) [
      | inl same ↦
          rw same
            (link_later-AllSound a bs budget (link_both a.1 b.1 g) (link_both-AllSound a.1 b.1 g h))
      | inr other ↦ rw other (link_later-AllSound a bs (suc budget) g h)
    ]

    link_pairs-AllSound :
        (xs : List (ℕ × ℕ)) (budget : ℕ) (g : Graph F)
        → AllSound g
        → AllSound (link_pairs xs (budget, g)).1
    unfolding link_pairs
    link_pairs-AllSound [] budget g h = h
    link_pairs-AllSound (a ∷ rest) budget g h =
        link_pairs-AllSound rest (link_later a rest (budget, g)).0 (link_later a rest (budget, g)).1
          (link_later-AllSound a rest budget g h)

    -- `scan_analogies` keeps every node of the graph sound.
    pub scan_analogies-AllSound :
        (max_pairs : ℕ) (g : Graph F) → AllSound g → AllSound (scan_analogies max_pairs g)
    unfolding scan_analogies
    scan_analogies-AllSound max_pairs g h = elim (Bool-cases (ltb g.node_count 2)) [
      | inl few ↦ rw few h
      | inr more ↦ rw more (link_pairs-AllSound (sample g g.node_count 0 1024) max_pairs g h)
    ]
