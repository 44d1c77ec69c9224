-- ===== src/Graph/PlanLoop.antt =====
-- The search loop of `plan_path` and `plan_path_typed` (src/core/cluster_graph.h) ends, and a search
-- that finds nothing leaves nothing out.
use engram_core.Prelude.{
  ℕ, zero, suc, ◌≡◌, refl, inl, inr, List, [], ◌∷◌, Bool, true, false, Option, none, some, arith,
  subst,
}
use engram_core.Prelude.Float.{Float}
use engram_core.Graph.Node.{Edge}
use engram_core.Graph.Arena.{Graph}
use engram_core.Graph.Plan.{Search, Scan, found, going, scan_edges, search_loop}
use engram_core.Graph.PlanScan.{Scanned, scan_edges-Scanned, finish-Searching}
use engram_core.Graph.PlanSearch.{has, Linked, Traced, Searching}

module _ {F : Float} (wanted : Edge F → Bool) (g : Graph F) where
  -- The slots of the list are a walk along wanted edges from `a`, exclusive, to `b`, inclusive.
  abbrev pub Route : ℕ → List ℕ → ℕ → Type 0
  Route a [] b = a ≡ b
  Route a (x ∷ xs) b = Linked wanted g a x × Route x xs b

  abbrev pub Unreachable : ℕ → ℕ → Type 0
  Unreachable a b = (path : List ℕ) → ¬ Route a path b

  Route-visited :
      (s : Search) (a b : ℕ) (path : List ℕ)
      → ((i : ℕ) → s.visited i ≡ true → (t : ℕ) → Linked wanted g i t → s.visited t ≡ true)
      → s.visited a ≡ true
      → Route a path b
      → s.visited b ≡ true
  Route-visited s a b [] closed v r = subst (λ k. s.visited k ≡ true) r v
  Route-visited s a b (x ∷ xs) closed v r = Route-visited s x b xs closed (closed a v x r.0) r.1

  exhausted-Unreachable :
      (start goal n : ℕ) (s : Search)
      → Searching wanted g start goal n [] s
      → Unreachable start goal
  unfolding has
  exhausted-Unreachable start goal n s h path r =
      let v =
        Route-visited s start goal path
          (λ i v. elim (h.closed i v) [ inl waits ↦ cc | inr done ↦ done ]) h.begun r in
      let m = h.missing in cc

  abbrev pub Searched : ℕ → ℕ → Option (Option Search) → Type 0
  Searched start goal none = true ≡ false
  Searched start goal (some none) = Unreachable start goal
  Searched start goal (some (some s)) = Traced wanted g start s × (s.visited goal ≡ true)

  requeue-Searching :
      (start goal n : ℕ) (open_slots queue : List ℕ) (s : Search)
      → Searching wanted g start goal n open_slots s
      → Searching wanted g start goal n open_slots (record s { queue = queue })
  requeue-Searching start goal n open_slots queue s h = record {
    traced = h.traced;
    begun = h.begun;
    missing = h.missing;
    entered = h.entered;
    closed = h.closed;
    budget = h.budget;
  }

  abbrev round : ℕ → ℕ → List ℕ → Search → Option (Option Search)
  round goal fuel queue s = elim queue [
    | [] ↦ some none
    | cur ∷ rest ↦
        elim (scan_edges wanted g.node_count goal cur (g.cortex_memory cur).edges
          (record s { queue = rest })) [
            | found s' ↦ some (some s')
            | going s' ↦ search_loop wanted g goal fuel s'
          ]
  ]

  after_scan :
      (start goal n fuel cur : ℕ) (s : Search) (r : Scan)
      → ((s' : Search)
          → Searching wanted g start goal n s'.queue s'
          → Searched start goal (search_loop wanted g goal fuel s'))
      → Scanned wanted g start goal (suc n) cur (g.cortex_memory cur).edges s r
      → Searched start goal
          (elim r [ found s' ↦ some (some s') | going s' ↦ search_loop wanted g goal fuel s' ])
  after_scan start goal n fuel cur s (found s') loop h = h
  after_scan start goal n fuel cur s (going s') loop h =
      loop s' (finish-Searching wanted g start goal n cur s'.queue s' h.0 h.1)

  round-Searched :
      (start goal n fuel : ℕ) (queue : List ℕ) (s : Search)
      → ((s' : Search)
          → Searching wanted g start goal n s'.queue s'
          → Searched start goal (search_loop wanted g goal fuel s'))
      → Searching wanted g start goal (suc n) queue s
      → Searched start goal (round goal fuel queue s)
  round-Searched start goal n fuel [] s loop h = exhausted-Unreachable start goal (suc n) s h
  round-Searched start goal n fuel (cur ∷ rest) s loop h =
      after_scan start goal n fuel cur (record s { queue = rest }) _ loop
        (scan_edges-Scanned wanted g start goal (suc n) cur (g.cortex_memory cur).edges
          (record s { queue = rest }) (λ t l. l)
          (requeue-Searching start goal (suc n) (cur ∷ rest) rest s h))

  search_loop-round :
      (goal fuel : ℕ) (s : Search)
      → search_loop wanted g goal (suc fuel) s ≡ round goal fuel s.queue s
  unfolding search_loop
  search_loop-round goal fuel s = refl

  pub search_loop-Searched :
      (start goal n : ℕ) (s : Search)
      → Searching wanted g start goal n s.queue s
      → Searched start goal (search_loop wanted g goal (suc n) s)
  search_loop-Searched start goal zero s h = rw (search_loop-round goal zero s) (last s.queue h)
    where
      last :
          (queue : List ℕ)
          → Searching wanted g start goal zero queue s
          → Searched start goal (round goal zero queue s)
      last [] h = exhausted-Unreachable start goal zero s h
      last (cur ∷ rest) h = let b = h.budget in let no : ⊥ = omega arith in elim no [ ]
  search_loop-Searched start goal (suc n) s h =
      rw (search_loop-round goal (suc n) s)
        (round-Searched start goal n (suc n) s.queue s (search_loop-Searched start goal n) h)
