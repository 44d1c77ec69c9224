-- ===== src/Graph/Lookup.antt =====
-- The edge that is found after `add_edge` of ClusterNode (src/core/cluster_graph.h).
use mathlib.Core.Option
use engram_core.Prelude.{
  ℕ, ◌-◌, ◌≡◌, refl, ◌∙◌, List, [], ◌∷◌, Bool, true, false, Option, none, some, length, countb, ltb,
  if◌then◌else◌, arith, ℤ, ==ℤ_self, ==_self, find, find-none, find-append, find-set, get_elem?,
}
use engram_core.Prelude.Float.{Float}
use engram_core.Graph.Node.{
  Edge, max_fanout, matches, reinforce, reinforce_first, new_edge, insert_edge, insert_or_reinforce,
  add_to,
}
use engram_core.Graph.Edges.{IsSound, Searched, search-Searched}
use engram_core.Graph.AddEdge.{find-sort_edges, insert_or_reinforce_lem}

module _ {F : Float} (t : ℤ) (strength : F.Carrier) (etype prov : ℕ) where
  -- The edge of that target and type which the caller may expect afterwards.
  pub expected_edge : List (Edge F) → Option (Edge F)
  expected_edge es = elim (find (matches t etype) es) [
    | some e ↦ some (reinforce strength prov e)
    | none ↦
        if ltb (length es) max_fanout
        then some (new_edge t strength etype prov)
        else elim (get_elem? es (length es - 1)) [
          | none ↦ none
          | some last ↦
              if F.ltb last.weight strength then some (new_edge t strength etype prov) else none
        ]
  ]

  abbrev Found : List (Edge F) → Option (List (Edge F)) → Type 0
  Found es none = find (matches t etype) es ≡ none
  Found es (some es') =
      (e : Edge F) × (find (matches t etype) es ≡ some e)
      × (find (matches t etype) es' ≡ some (reinforce strength prov e))

  search-Found : (es : List (Edge F)) → Found es (reinforce_first t etype strength prov es)
  unfolding reinforce_first reinforce
  search-Found [] = refl
  search-Found (e ∷ es) =
      step (matches t etype e) refl (reinforce_first t etype strength prov es) (search-Found es)
    where
      step :
          (b : Bool)
          → matches t etype e ≡ b
          → (r : Option (List (Edge F))) → Found es r
          → Found
              (e ∷ es)
              (if b then some (reinforce strength prov e ∷ es) else Option.map (◌∷◌ e) r)
      step true q r h = (e, rw q, rw q)
      step false q none h = rw q h
      step false q (some es') h = (h.0, rw q h.1, rw q h.2)

  find-insert_edge :
      (es : List (Edge F))
      → countb (matches t etype) es ≡ 0
      → find (matches t etype) (insert_edge (new_edge t strength etype prov) es) ≡ (
          if ltb (length es) max_fanout
          then some (new_edge t strength etype prov)
          else elim (get_elem? es (length es - 1)) [
            | none ↦ none
            | some last ↦
                if F.ltb last.weight strength then some (new_edge t strength etype prov) else none
          ])
  unfolding insert_edge new_edge
  find-insert_edge es h = ground (
    arith,
    find-append (matches t etype) es (new_edge t strength etype prov ∷ []),
    find-none (matches t etype) es,
    find-set (matches t etype) es (length es - 1) (new_edge t strength etype prov),
    ==ℤ_self t,
    ==_self etype,
  )

  -- After `add_edge` on a sound array the edge of that target and type is the old one reinforced,
  -- if there was one; else the new one, if there was room or the last edge was weaker; else there
  -- is none.
  pub find-add_to :
      (es : List (Edge F))
      → IsSound es
      → find (matches t etype) (add_to t strength etype prov es) ≡ expected_edge es
  unfolding add_to expected_edge insert_or_reinforce
  find-add_to es v =
      find-sort_edges (matches t etype) (insert_or_reinforce t strength etype prov es)
        ((insert_or_reinforce_lem t strength etype prov es v).1 t etype)
      ∙ result (reinforce_first t etype strength prov es) (search-Found es)
          (search-Searched t etype strength prov es)
    where
      result :
          (r : Option (List (Edge F)))
          → Found es r
          → Searched t etype strength prov es r
          → find
              (matches t etype)
              (elim r [ some es' ↦ es' | none ↦ insert_edge (new_edge t strength etype prov) es ])
            ≡ expected_edge es
      result none f q = rw (f, expected_edge) (find-insert_edge es q)
      result (some es') f q = rw (f.1, expected_edge) f.2
