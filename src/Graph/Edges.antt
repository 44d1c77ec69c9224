-- ===== src/Graph/Edges.antt =====
-- The edge arrays of ClusterNode (src/core/cluster_graph.h): order, bounds, and one edge for each target
-- and type.
use mathlib.Core.List.{reverse_aux}
use mathlib.Core.Option
use engram_core.Prelude.{
  subst₂, sym, ◌==ℤ◌, ==ℤ_sound, ◌&&◌, ◌==◌, ◌-◌, countb-set-le, length-set, ℕ, suc, ◌+◌, ◌≤◌, ◌≡◌,
  refl, ap, inl, inr, List, [], ◌∷◌, Bool, true, false, Option, none, some, length, length-append,
  length-reverse, All, countb, countb-append, countb-reverse, Bool-cases, if◌then◌else◌, arith, ℤ,
}
use engram_core.Prelude.Float.{Float, IsOrder}
use engram_core.Graph.Node.{
  Edge, max_fanout, sift, sort_loop, sort_edges, matches, reinforce, reinforce_first, new_edge,
  insert_edge,
}

module _ {F : Float} where
  abbrev pub Below : Edge F → Edge F → Type 0
  Below e f = F.ltb e.weight f.weight ≡ false

  -- No edge is followed by a stronger one.
  abbrev pub IsDescending : List (Edge F) → Type 0
  IsDescending [] = Unit
  IsDescending (e ∷ es) = All (Below e) es × IsDescending es

  -- The same of the array read from its end.
  abbrev IsAscending : List (Edge F) → Type 0
  IsAscending [] = Unit
  IsAscending (e ∷ es) = All (λ f. Below f e) es × IsAscending es

  pub record IsSound (es : List (Edge F)) : Type 0 where
    pub bounded : length es ≤ max_fanout
    pub sorted : IsDescending es
    pub distinct : (t : ℤ) (etype : ℕ) → countb (matches t etype) es ≤ 1

  pub countb-sift :
      (p : Edge F → Bool) (key : Edge F) (placed : List (Edge F))
      → countb p (sift key placed) ≡ countb p (key ∷ placed)
  unfolding sift
  countb-sift p key [] = refl
  countb-sift p key (e ∷ placed) = ground (arith, countb-sift p key placed)

  pub countb-sort_loop :
      (p : Edge F → Bool) (placed es : List (Edge F))
      → countb p (sort_loop placed es) ≡ countb p placed + countb p es
  unfolding sort_loop
  countb-sort_loop p placed [] = omega arith
  countb-sort_loop p placed (e ∷ es) =
      ground (arith, countb-sort_loop p (sift e placed) es, countb-sift p e placed)

  -- Sorting keeps the edges: it counts as many of each kind as before.
  pub countb-sort_edges :
      (p : Edge F → Bool) (es : List (Edge F)) → countb p (sort_edges es) ≡ countb p es
  unfolding sort_edges
  countb-sort_edges p es =
      omega (arith, countb-reverse p (sort_loop [] es), countb-sort_loop p [] es)

  length-sift :
      (key : Edge F) (placed : List (Edge F)) → length (sift key placed) ≡ suc (length placed)
  unfolding sift
  length-sift key [] = refl
  length-sift key (e ∷ placed) = ground (arith, length-sift key placed)

  length-sort_loop :
      (placed es : List (Edge F)) → length (sort_loop placed es) ≡ length placed + length es
  unfolding sort_loop
  length-sort_loop placed [] = omega arith
  length-sort_loop placed (e ∷ es) =
      omega (arith, length-sort_loop (sift e placed) es, length-sift e placed)

  pub length-sort_edges : (es : List (Edge F)) → length (sort_edges es) ≡ length es
  unfolding sort_edges
  length-sort_edges es = omega (arith, length-reverse (sort_loop [] es), length-sort_loop [] es)

  All-sift :
      (P : Edge F → Type 0) (key : Edge F) (placed : List (Edge F))
      → P key
      → All P placed
      → All P (sift key placed)
  unfolding sift
  All-sift P key [] hk h = (hk, h)
  All-sift P key (e ∷ placed) hk h =
      place (F.ltb e.weight key.weight) (All-sift P key placed hk h.1)
    where
      place :
          (b : Bool)
          → All P (sift key placed)
          → All P (if b then e ∷ sift key placed else key ∷ e ∷ placed)
      place true rest = (h.0, rest)
      place false rest = (hk, h)

  both :
      (x : Edge F) (acc xs : List (Edge F))
      → All (λ f. Below f x) xs
      → All (λ f. All (Below f) acc) xs
      → All (λ f. All (Below f) (x ∷ acc)) xs
  both x acc [] h k = tt
  both x acc (f ∷ xs) h k = ((h.0, k.0), both x acc xs h.1 k.1)

  -- Read from its front again, an ascending stretch descends.
  reverse_aux-IsDescending :
      (xs acc : List (Edge F))
      → IsAscending xs
      → IsDescending acc
      → All (λ f. All (Below f) acc) xs
      → IsDescending (reverse_aux xs acc)
  reverse_aux-IsDescending [] acc h d k = d
  reverse_aux-IsDescending (x ∷ xs) acc h d k =
      reverse_aux-IsDescending xs (x ∷ acc) h.1 (k.0, d) (both x acc xs h.0 k.1)

  Below-nothing : (xs : List (Edge F)) → All (λ f. All (Below f) []) xs
  Below-nothing [] = tt
  Below-nothing (x ∷ xs) = (tt, Below-nothing xs)

  module _ (o : IsOrder F) where
    above-All :
        (key e : Edge F) (placed : List (Edge F))
        → Below e key
        → All (λ f. Below f e) placed
        → All (λ f. Below f key) placed
    above-All key e [] h k = tt
    above-All key e (f ∷ placed) h k = (o.ge_trans _ _ _ k.0 h, above-All key e placed h k.1)

    sift-IsAscending :
        (key : Edge F) (placed : List (Edge F)) → IsAscending placed → IsAscending (sift key placed)
    unfolding sift
    sift-IsAscending key [] h = (tt, tt)
    sift-IsAscending key (e ∷ placed) h =
        place (F.ltb e.weight key.weight) refl (sift-IsAscending key placed h.1)
      where
        place :
            (b : Bool)
            → F.ltb e.weight key.weight ≡ b
            → IsAscending (sift key placed)
            → IsAscending (if b then e ∷ sift key placed else key ∷ e ∷ placed)
        place true smaller rest = (All-sift _ key placed (o.asymm _ _ smaller) h.0, rest)
        place false large rest = ((large, above-All key e placed large h.0), h)

    sort_loop-IsAscending :
        (placed es : List (Edge F)) → IsAscending placed → IsAscending (sort_loop placed es)
    unfolding sort_loop
    sort_loop-IsAscending placed [] h = h
    sort_loop-IsAscending placed (e ∷ es) h =
        sort_loop-IsAscending (sift e placed) es (sift-IsAscending e placed h)

    -- After `_sort_edges` no edge is followed by a stronger one, whatever the order was before.
    pub sort_edges-IsDescending : (es : List (Edge F)) → IsDescending (sort_edges es)
    unfolding sort_edges
    sort_edges-IsDescending es =
        reverse_aux-IsDescending (sort_loop [] es) [] (sort_loop-IsAscending [] es tt) tt
          (Below-nothing (sort_loop [] es))

  -- What the search loop of `add_edge` leaves: the same edges under the same keys, or no such edge.
  module _ (t : ℤ) (etype : ℕ) (strength : F.Carrier) (prov : ℕ) where
    abbrev pub Searched : List (Edge F) → Option (List (Edge F)) → Type 0
    Searched es none = countb (matches t etype) es ≡ 0
    Searched es (some es') =
        (length es' ≡ length es)
        × ((u : ℤ) (k : ℕ) → countb (matches u k) es' ≡ countb (matches u k) es)

    pub search-Searched :
        (es : List (Edge F)) → Searched es (reinforce_first t etype strength prov es)
    unfolding reinforce_first reinforce
    search-Searched [] = refl
    search-Searched (e ∷ es) =
        step (matches t etype e) refl (reinforce_first t etype strength prov es)
          (search-Searched es)
      where
        step :
            (b : Bool)
            → matches t etype e ≡ b
            → (r : Option (List (Edge F))) → Searched es r
            → Searched
                (e ∷ es)
                (if b then some (reinforce strength prov e ∷ es) else Option.map (◌∷◌ e) r)
        step true q r h = (refl, λ u k. refl)
        step false q none h = rw q h
        step false q (some es') h = (ap suc h.0, λ u k. ground (arith, h.1 u k))

    -- The edge that is added has a key of its own, if the search found none.
    new_key :
        (es : List (Edge F)) (u : ℤ) (k : ℕ)
        → countb (matches t etype) es ≡ 0
        → countb (matches u k) es ≤ 1
        → countb (matches u k) es
            + countb (matches u k) (new_edge {F = F} t strength etype prov ∷ [])
          ≤ 1
    unfolding new_edge
    new_key es u k none_yet h = elim (Bool-cases (◌==ℤ◌ t u && (etype == k))) [
      | inl hit ↦
          let e : u ≡ t = sym (==ℤ_sound t u (ground (arith, hit))) in
          let f : k ≡ etype = ground (arith, hit) in
          subst₂ (λ v m. countb (matches v m) es + (if ◌==ℤ◌ t u && (etype == k) then 1 else 0) ≤ 1)
            (sym e) (sym f) (rw hit (omega (arith, none_yet)))
      | inr miss ↦ rw miss (omega (arith, h))
    ]

    pub insert_edge-distinct :
        (es : List (Edge F))
        → countb (matches t etype) es ≡ 0
        → ((u : ℤ) (k : ℕ) → countb (matches u k) es ≤ 1)
        → (u : ℤ) (k : ℕ)
        → countb (matches u k) (insert_edge (new_edge t strength etype prov) es) ≤ 1
    unfolding insert_edge
    insert_edge-distinct es none_yet h u k = ground (
      arith,
      new_key es u k none_yet (h u k),
      countb-append (matches u k) es (new_edge t strength etype prov ∷ []),
      countb-set-le (matches u k) es (length es - 1) (new_edge t strength etype prov),
      h u k,
    )

    pub insert_edge-bounded :
        (new : Edge F) (es : List (Edge F))
        → length es ≤ max_fanout
        → length (insert_edge new es) ≤ max_fanout
    unfolding insert_edge
    insert_edge-bounded new es h =
        ground (arith, length-append es (new ∷ []), length-set es (length es - 1) new)
