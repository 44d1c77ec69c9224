-- ===== src/Graph/PlanScan.antt =====
-- One round of the search in `plan_path` and `plan_path_typed` (src/core/cluster_graph.h): the scan of
-- a slot's edges.
use engram_core.Prelude.{
  ℕ, suc, ◌≡◌, refl, sym, inl, inr, List, [], ◌∷◌, Bool, true, false, not, ◌||◌, Option, none, some,
  ◌==◌, ==_iff, ==_self, if◌then◌else◌, in_range, in_range_bound, Bool-cases, arith, subst,
  update_self,
}
use engram_core.Prelude.Float.{Float}
use engram_core.Graph.Node.{Edge}
use engram_core.Graph.Arena.{Graph}
use engram_core.Graph.Plan.{Search, Scan, found, going, mark, enqueue, scan_edges}
use engram_core.Graph.PlanSearch.{has, Ends, Linked, Traced, Searching, mark-Traced, mark-Searching}

module _ {F : Float} (wanted : Edge F → Bool) (g : Graph F) where
  abbrev pub Scanned : ℕ → ℕ → ℕ → ℕ → List (Edge F) → Search → Scan → Type 0
  Scanned start goal n cur es s (found s') = Traced wanted g start s' × (s'.visited goal ≡ true)
  Scanned start goal n cur es s (going s') =
      Searching wanted g start goal n (cur ∷ s'.queue) s'
      × ((t : ℕ) → Ends wanted g t es → s'.visited t ≡ true)
      × ((t : ℕ) → s.visited t ≡ true → s'.visited t ≡ true)

  -- An edge that is passed over leads to a visited slot.
  Scanned-skip :
      (start goal n cur : ℕ) (e : Edge F) (es : List (Edge F)) (s : Search) (r : Scan)
      → ((t : ℕ) → wanted e ≡ true → in_range g.node_count e.target ≡ some t → s.visited t ≡ true)
      → Scanned start goal n cur es s r
      → Scanned start goal n cur (e ∷ es) s r
  Scanned-skip start goal n cur e es s (found s') known h = h
  Scanned-skip start goal n cur e es s (going s') known h = (
    h.0,
    λ t ends. elim ends [ inl here ↦ h.2 t (known t here.0 here.1) | inr later ↦ h.1 t later ],
    h.2,
  )

  Scanned-go_on :
      (start goal n cur t : ℕ) (e : Edge F) (es : List (Edge F)) (s : Search) (r : Scan)
      → in_range g.node_count e.target ≡ some t
      → Scanned start goal n cur es (enqueue t (mark cur t s)) r
      → Scanned start goal n cur (e ∷ es) s r
  unfolding enqueue mark
  Scanned-go_on start goal n cur t e es s (found s') at h = h
  Scanned-go_on start goal n cur t e es s (going s') at h = (
    h.0,
    λ u ends. elim ends [
      | inl here ↦ let same : u ≡ t = cc in h.2 u (ground arith)
      | inr later ↦ h.1 u later
    ],
    λ u v. h.2 u (ground arith),
  )

  pub scan_edges-Scanned :
      (start goal n cur : ℕ) (es : List (Edge F)) (s : Search)
      → ((t : ℕ) → Ends wanted g t es → Linked wanted g cur t)
      → Searching wanted g start goal n (cur ∷ s.queue) s
      → Scanned start goal n cur es s (scan_edges wanted g.node_count goal cur es s)
  unfolding scan_edges
  scan_edges-Scanned start goal n cur [] s sub h = (h, λ t ends. cc, λ t v. v)
  scan_edges-Scanned start goal n cur (e ∷ es) s sub h =
      step (in_range g.node_count e.target) refl (scan_edges-Scanned start goal n cur es s later h)
        (λ t h'. scan_edges-Scanned start goal n cur es (enqueue t (mark cur t s)) later h')
    where
      later : (t : ℕ) → Ends wanted g t es → Linked wanted g cur t
      later t ends = sub t (inr ends)

      skip : Scan
      skip = scan_edges wanted g.node_count goal cur es s

      rest : ℕ → Scan
      rest t = scan_edges wanted g.node_count goal cur es (enqueue t (mark cur t s))

      step :
          (r : Option ℕ)
          → in_range g.node_count e.target ≡ r
          → Scanned start goal n cur es s skip
          → ((t : ℕ)
              → Searching wanted g start goal n
                  (cur ∷ (enqueue t (mark cur t s)).queue)
                  (enqueue t (mark cur t s))
              → Scanned start goal n cur es (enqueue t (mark cur t s)) (rest t))
          → Scanned start goal n cur (e ∷ es) s (elim r [
            | none ↦ skip
            | some t ↦
                if not (wanted e) || s.visited t
                then skip
                else if t == goal
                then found (mark cur t s)
                else rest t
          ])
      step none q skipped go = Scanned-skip start goal n cur e es s skip (λ t w l. cc) skipped
      step (some t) q skipped go = choose (not (wanted e) || s.visited t) refl (t == goal) refl
        where
          inside : s.visited cur ≡ true
          inside = h.entered cur (unfold has in rw (==_self cur) refl)

          link : (not (wanted e) || s.visited t) ≡ false → Linked wanted g cur t
          link known = sub t (inl (ground arith, q))

          choose :
              (b : Bool)
              → (not (wanted e) || s.visited t) ≡ b
              → (c : Bool) → (t == goal) ≡ c
              → Scanned start goal n cur
                  (e ∷ es)
                  s
                  (if b then skip else if c then found (mark cur t s) else rest t)
          choose true known c q' =
              Scanned-skip start goal n cur e es s skip
                (λ u w l. let same : u ≡ t = cc in rw same (ground arith)) skipped
          choose false known true q' = (
            mark-Traced wanted g start cur t s inside (link known) h.traced,
            rw (sym ((==_iff t goal).0 q')) (update_self s.visited t true),
          )
          choose false known false q' = Scanned-go_on start goal n cur t e es s (rest t) q (
              go t (
                mark-Searching wanted g start goal n cur t s (ground arith)
                  (in_range_bound g.node_count e.target q).0 (ground arith) (link known) h))

  pub finish-Searching :
      (start goal n cur : ℕ) (queue : List ℕ) (s : Search)
      → Searching wanted g start goal (suc n) (cur ∷ queue) s
      → ((t : ℕ) → Linked wanted g cur t → s.visited t ≡ true)
      → Searching wanted g start goal n queue s
  unfolding has
  finish-Searching start goal n cur queue s h done = record {
    traced = h.traced;
    begun = h.begun;
    missing = h.missing;
    entered = λ i v. h.entered i (rw v (ground arith));
    closed = λ i v. elim (h.closed i v) [
      | inr old ↦ inr old
      | inl waits ↦ elim (Bool-cases (i == cur)) [
        | inl here ↦
            inr (λ t l. done t (subst (λ k. Linked wanted g k t) ((==_iff i cur).0 here) l))
        | inr there ↦ inl (ground arith)
      ]
    ];
    budget = let b = h.budget in omega arith;
  }
