-- ===== src/Graph/AddEdge.antt =====
-- What `add_edge` and `prune` of ClusterNode (src/core/cluster_graph.h) do to an edge array.
use engram_core.Prelude.{
  ℕ, ◌+◌, ◌≤◌, ◌≡◌, refl, ◌∙◌, List, [], ◌∷◌, Bool, true, false, Option, none, some, length,
  All-filterb, countb, countb-filterb-le, length-filterb-le, filterb, if◌then◌else◌, arith, ℤ, find,
  or_else, find-none, find-reverse,
}
use engram_core.Prelude.Float.{Float, IsOrder}
use engram_core.Graph.Node.{
  Edge, Node, max_fanout, sift, sort_loop, sort_edges, matches, reinforce_first, new_edge,
  insert_edge, insert_or_reinforce, add_to, add_edge, add_inverse_edge, prune, survives,
}
use engram_core.Graph.Edges.{
  IsSound, IsDescending, Below, countb-sort_edges, countb-sift, countb-sort_loop, length-sort_edges,
  sort_edges-IsDescending, Searched, search-Searched, insert_edge-distinct, insert_edge-bounded,
}

module _ {F : Float} where
  -- A node whose two arrays are sound.
  pub record IsSoundNode (n : Node F) : Type 0 where
    pub forward : IsSound n.edges
    pub backward : IsSound n.inverse_edges

  abbrev pub Fits : List (Edge F) → Type 0
  Fits xs = (length xs ≤ max_fanout) × ((u : ℤ) (k : ℕ) → countb (matches u k) xs ≤ 1)

  module _ (t : ℤ) (strength : F.Carrier) (etype prov : ℕ) where
    pub insert_or_reinforce_lem :
        (es : List (Edge F))
        → IsSound es
        → (length (insert_or_reinforce t strength etype prov es) ≤ max_fanout)
          × ((u : ℤ) (k : ℕ)
              → countb (matches u k) (insert_or_reinforce t strength etype prov es) ≤ 1)
    unfolding insert_or_reinforce
    insert_or_reinforce_lem es v =
        result (reinforce_first t etype strength prov es) (search-Searched t etype strength prov es)
      where
        result :
            (r : Option (List (Edge F)))
            → Searched t etype strength prov es r
            → Fits
                (elim r [ some es' ↦ es' | none ↦ insert_edge (new_edge t strength etype prov) es ])
        result none h = (
          insert_edge-bounded t etype strength prov _ es v.bounded,
          insert_edge-distinct t etype strength prov es h v.distinct,
        )
        result (some es') h =
            (omega (arith, h.0, v.bounded), λ u k. omega (arith, h.1 u k, v.distinct u k))

    add_to-IsSound :
        IsOrder F → (es : List (Edge F)) → IsSound es → IsSound (add_to t strength etype prov es)
    unfolding add_to
    add_to-IsSound o es v =
        let (few, once) = insert_or_reinforce_lem es v in
        record {
          bounded =
              omega (arith, few, length-sort_edges (insert_or_reinforce t strength etype prov es));
          sorted = sort_edges-IsDescending o (insert_or_reinforce t strength etype prov es);
          distinct = λ u k. omega (
            arith,
            once u k,
            countb-sort_edges (matches u k) (insert_or_reinforce t strength etype prov es),
          );
        }

  -- Under an ordered float arithmetic `add_edge` and `add_inverse_edge` keep both edge arrays of a
  -- node within 150 edges, in descending order of weight, and with at most one edge for each
  -- target and type.
  pub add_edge-IsSoundNode :
      IsOrder F
      → (t : ℤ) (strength : F.Carrier) (etype prov : ℕ) (n : Node F) → IsSoundNode n
      → IsSoundNode (add_edge t strength etype prov n)
        × IsSoundNode (add_inverse_edge t strength etype n)
  unfolding add_edge add_inverse_edge
  add_edge-IsSoundNode o t strength etype prov n v = (
    record {
      forward = add_to-IsSound t strength etype prov o n.edges v.forward;
      backward = v.backward;
    },
    record {
      forward = v.forward;
      backward = add_to-IsSound t strength etype _ o n.inverse_edges v.backward;
    },
  )

  filterb-IsDescending :
      (p : Edge F → Bool) (es : List (Edge F)) → IsDescending es → IsDescending (filterb p es)
  filterb-IsDescending p [] h = h
  filterb-IsDescending p (e ∷ es) h = keep (p e) (filterb-IsDescending p es h.1)
    where
      keep :
          (b : Bool)
          → IsDescending (filterb p es)
          → IsDescending (if b then e ∷ filterb p es else filterb p es)
      keep true rest = (All-filterb (Below e) p es h.0, rest)
      keep false rest = rest

  filterb-IsSound : (p : Edge F → Bool) (es : List (Edge F)) → IsSound es → IsSound (filterb p es)
  filterb-IsSound p es v = record {
    bounded = omega (arith, length-filterb-le p es, v.bounded);
    sorted = filterb-IsDescending p es v.sorted;
    distinct = λ u k. omega (arith, countb-filterb-le (matches u k) p es, v.distinct u k);
  }

  prune-IsSoundNode : (n : Node F) → IsSoundNode n → IsSoundNode (prune n)
  unfolding prune
  prune-IsSoundNode n v = record {
    forward = filterb-IsSound survives n.edges v.forward;
    backward = filterb-IsSound survives n.inverse_edges v.backward;
  }

  find-sift :
      (p : Edge F → Bool) (key : Edge F) (placed : List (Edge F))
      → countb p (key ∷ placed) ≤ 1
      → find p (sift key placed) ≡ find p (key ∷ placed)
  unfolding sift
  find-sift p key [] h = refl
  find-sift p key (e ∷ placed) h =
      ground (arith, find-sift p key placed, find-none p placed, countb-sift p key placed)

  find-sort_loop :
      (p : Edge F → Bool) (placed es : List (Edge F))
      → countb p placed + countb p es ≤ 1
      → find p (sort_loop placed es) ≡ or_else (find p placed) (find p es)
  unfolding sort_loop
  find-sort_loop p placed [] h = ground arith
  find-sort_loop p placed (e ∷ es) h = ground (
    arith,
    find-sort_loop p (sift e placed) es,
    find-sift p e placed,
    countb-sift p e placed,
    find-none p placed,
    find-none p es,
  )

  -- Sorting does not change which edge is found.
  pub find-sort_edges :
      (p : Edge F → Bool) (es : List (Edge F))
      → countb p es ≤ 1
      → find p (sort_edges es) ≡ find p es
  unfolding sort_edges
  find-sort_edges p es h =
      find-reverse p (sort_loop [] es) (omega (arith, countb-sort_loop p [] es))
      ∙ find-sort_loop p [] es (omega arith)
