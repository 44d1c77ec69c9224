-- ===== src/Graph/PlanSound.antt =====
-- What the breadth-first search in `plan_path` and `plan_path_typed` (src/core/cluster_graph.h) finds.
use engram_core.Prelude.{
  ℕ, zero, suc, ◌≤◌, ◌<◌, ◌≡◌, refl, sym, ◌∙◌, ◌⊎◌, inl, inr, List, [], ◌∷◌, ◌++◌, Bool, true,
  false, Option, none, some, ◌==◌, ==_iff, ==_self, ℤ, pos, negsuc, reverse, append_assoc,
  append-nil, length, length-reverse, Bool-cases, arith, subst,
}
use mathlib.Core.List.{reverse-cons}
use engram_core.Prelude.Float.{Float}
use engram_core.Graph.Node.{Edge}
use engram_core.Graph.Arena.{Graph}
use engram_core.Graph.Plan.{Search, start_search, trace_back, plan, plan_path, plan_path_typed}
use engram_core.Graph.PlanSearch.{Linked, Traced, start-Searching}
use engram_core.Graph.PlanLoop.{Route, Unreachable, Searched, search_loop-Searched}

module _ {F : Float} (wanted : Edge F → Bool) (g : Graph F) where
  -- The walk back from a visited slot, in the order it is written: each slot is linked from the next
  -- one, and the last one from the start unless the output is full.
  trace_back-Route :
      (start : ℕ) (s : Search) (room : ℕ) (i : ℕ) (path : List ℕ) (goal : ℕ)
      → Traced wanted g start s
      → s.visited i ≡ true
      → Route wanted g i path goal
      → (a : ℕ) × Route wanted g a (reverse (trace_back s.parent start room i) ++ path) goal
        × (length (trace_back s.parent start room i) ≤ room)
        × (length (trace_back s.parent start room i) < room → a ≡ start)
  unfolding trace_back
  trace_back-Route start s zero i path goal h v r = (i, r, omega arith, λ l. omega arith)
  trace_back-Route start s (suc room) i path goal h v r =
      step (i == start) refl (s.parent i) refl
        (λ p q l. trace_back-Route start s room p (i ∷ path) goal h q (l, r))
    where
      back : ℕ → List ℕ
      back = trace_back s.parent start room

      Ok : List ℕ → Type 0
      Ok xs =
          (a : ℕ) × Route wanted g a (reverse xs ++ path) goal
          × (length xs ≤ suc room)
          × (length xs < suc room → a ≡ start)

      step :
          (b : Bool)
          → (i == start) ≡ b
          → (z : ℤ) → s.parent i ≡ z
          → ((p : ℕ)
              → s.visited p ≡ true
              → Linked wanted g p i
              → (a : ℕ) × Route wanted g a (reverse (back p) ++ (i ∷ path)) goal
                × (length (back p) ≤ room)
                × (length (back p) < room → a ≡ start))
          → Ok (elim b [ true ↦ [] | false ↦ elim z [ pos p ↦ i ∷ back p | negsuc _ ↦ i ∷ [] ] ])
      step true q z e rec = (i, r, omega arith, λ l. (==_iff i start).0 q)
      step false q (negsuc k) e rec = elim (h i v) [
        | inl first ↦ let same : (i == start) ≡ true = rw first (==_self start) in cc
        | inr link ↦ let parent = link.1 in cc
      ]
      step false q (pos p) e rec = elim (h i v) [
        | inl first ↦ let same : (i == start) ≡ true = rw first (==_self start) in cc
        | inr link ↦
            let parent = link.1 in
            let same : link.0 ≡ p = cc in
            let walk =
              rec p (subst (λ k. s.visited k ≡ true) same link.2)
                (subst (λ k. Linked wanted g k i) same link.3) in
            (
              walk.0,
              rw (reverse-cons i (back p), append_assoc (reverse (back p)) (i ∷ []) path) walk.1,
              omega (arith, walk.2),
              λ l. walk.3 (omega arith),
            )
      ]

  -- What a call of `plan_path` answers.
  abbrev pub Answer : ℕ → ℕ → ℕ → Option (List ℕ) → Type 0
  Answer start goal max_len none = true ≡ false
  Answer start goal max_len (some []) =
      (start ≡ goal) ⊎ (max_len ≡ 0) ⊎ Unreachable wanted g start goal
  Answer start goal max_len (some (x ∷ xs)) =
      (a : ℕ) × Route wanted g a (x ∷ xs) goal
      × (length (x ∷ xs) ≤ max_len)
      × (length (x ∷ xs) < max_len → a ≡ start)

  Answer-found :
      (start goal max_len : ℕ) (path : List ℕ)
      → ((a : ℕ) × Route wanted g a path goal
          × (length path ≤ max_len)
          × (length path < max_len → a ≡ start))
      → Answer start goal max_len (some path)
  Answer-found start goal zero [] w = inr (inl refl)
  Answer-found start goal (suc max_len) [] w = inl (sym (w.3 (omega arith)) ∙ w.1)
  Answer-found start goal max_len (x ∷ xs) w = w

  Answer-search :
      (start goal max_len : ℕ) (r : Option (Option Search))
      → Searched wanted g start goal r
      → Answer start goal max_len (elim r [
        | none ↦ none
        | some none ↦ some []
        | some (some s) ↦ some (reverse (trace_back s.parent start max_len goal))
      ])
  Answer-search start goal max_len none h = h
  Answer-search start goal max_len (some none) h = inr (inr h)
  Answer-search start goal max_len (some (some s)) h =
      let walk = trace_back-Route start s max_len goal [] goal h.0 h.1 refl in
      let back = trace_back s.parent start max_len goal in
      Answer-found start goal max_len (reverse back) (
        walk.0,
        rw (sym (append-nil (reverse back))) walk.1,
        rw (length-reverse back) walk.2,
        rw (length-reverse back) walk.3,
      )

  -- What a plan from a slot of the arena answers.
  plan-Answer :
      (start goal max_len : ℕ)
      → start < g.node_count
      → Answer start goal max_len (plan wanted start goal max_len g)
  unfolding plan
  plan-Answer start goal max_len low = elim (Bool-cases (start == goal)) [
    | inl same ↦ rw same (inl ((==_iff start goal).0 same))
    | inr apart ↦ rw apart (
        Answer-search start goal max_len _ (
          search_loop-Searched wanted g start goal g.node_count (start_search start)
            (start-Searching wanted g start goal low (ground arith))))
  ]

module _ {F : Float} where
  -- From a slot of the arena `plan_path` and `plan_path_typed` end within their fuel. An empty answer
  -- means that start and goal are the same, that there is no room for a path, or that no walk leads
  -- from start to goal along the edges that are followed: all edges, or those of the given type. Any
  -- other answer is such a walk to the goal of at most `max_len` slots, and it begins next to the start
  -- if it is shorter than `max_len`.
  pub plan_path-Answer :
      (start goal max_len follow : ℕ) (g : Graph F)
      → start < g.node_count
      → Answer (λ e. true) g start goal max_len (plan_path start goal max_len g)
        × Answer
            (λ e. e.kind == follow)
            g
            start
            goal
            max_len
            (plan_path_typed follow start goal max_len g)
  unfolding plan_path plan_path_typed
  plan_path-Answer start goal max_len follow g low = (
    plan-Answer (λ e. true) g start goal max_len low,
    plan-Answer (λ e. e.kind == follow) g start goal max_len low,
  )
