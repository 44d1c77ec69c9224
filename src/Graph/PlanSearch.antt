-- ===== src/Graph/PlanSearch.antt =====
-- The invariant of the breadth-first search in `plan_path` and `plan_path_typed`
-- (src/core/cluster_graph.h).
use engram_core.Prelude.{
  ℕ, zero, suc, ◌+◌, ◌≤◌, ◌<◌, ◌≡◌, ◌≢◌, refl, sym, ◌⊎◌, inl, inr, List, [], ◌∷◌, ◌++◌, Bool, true,
  false, ◌||◌, some, ◌==◌, ==_iff, ==_self, if◌then◌else◌, update, update_self, update_ne, pos,
  in_range, length, length-append, Bool-cases, arith, subst,
}
use engram_core.Prelude.Float.{Float}
use engram_core.Graph.Node.{Edge}
use engram_core.Graph.Arena.{Graph}
use engram_core.Graph.Plan.{Search, mark, enqueue, start_search}

unfoldable pub has : ℕ → List ℕ → Bool
has i [] = false
has i (x ∷ xs) = (i == x) || has i xs

has-append : (i : ℕ) (xs ys : List ℕ) → has i (xs ++ ys) ≡ has i xs || has i ys
unfolding has
has-append i [] ys = refl
has-append i (x ∷ xs) ys = rw (has-append i xs ys) (ground arith)

-- The slots below a bound that are not visited.
pub unvisited : (ℕ → Bool) → ℕ → ℕ
unvisited v zero = 0
unvisited v (suc n) = (if v n then 0 else 1) + unvisited v n

unvisited-above : (v : ℕ → Bool) (t n : ℕ) → n ≤ t → unvisited (update v t true) n ≡ unvisited v n
unfolding unvisited
unvisited-above v t zero h = refl
unvisited-above v t (suc n) h =
    rw (update_ne v t n true (omega arith), unvisited-above v t n (omega arith)) refl

pub unvisited-update :
    (v : ℕ → Bool) (t n : ℕ)
    → t < n
    → v t ≡ false
    → suc (unvisited (update v t true) n) ≡ unvisited v n
unfolding unvisited
unvisited-update v t zero h fresh = omega arith
unvisited-update v t (suc n) h fresh = elim (Bool-cases (t == n)) [
  | inl here ↦
      rw
        (
          sym ((==_iff t n).0 here),
          update_self v t true,
          unvisited-above v t t (omega arith),
          fresh,
        )
        (omega arith)
  | inr there ↦
      let other : n ≢ t = ground arith in
      rw (update_ne v t n true other, sym (unvisited-update v t n (ground arith) fresh))
        (omega arith)
]

unvisited-le : (v : ℕ → Bool) (n : ℕ) → unvisited v n ≤ n
unfolding unvisited
unvisited-le v zero = omega arith
unvisited-le v (suc n) = let shorter = unvisited-le v n in ground arith

pub unvisited_start : (start n : ℕ) → start < n → suc (unvisited (λ i. i == start) n) ≤ n
unfolding unvisited
unvisited_start start zero h = omega arith
unvisited_start start (suc n) h = elim (Bool-cases (n == start)) [
  | inl here ↦ let rest = unvisited-le (λ i. i == start) n in rw here (omega arith)
  | inr there ↦ let rest = unvisited_start start n (ground arith) in rw there (omega arith)
]

module _ {F : Float} (wanted : Edge F → Bool) (g : Graph F) where
  -- A wanted edge of the list ends at slot `t`.
  abbrev pub Ends : ℕ → List (Edge F) → Type 0
  Ends t [] = true ≡ false
  Ends t (e ∷ es) = ((wanted e ≡ true) × (in_range g.node_count e.target ≡ some t)) ⊎ Ends t es

  abbrev pub Linked : ℕ → ℕ → Type 0
  Linked p t = Ends t (g.cortex_memory p).edges

  -- Every visited slot but the start has a visited parent with an edge to it.
  abbrev pub Traced : ℕ → Search → Type 0
  Traced start s =
      (i : ℕ)
      → s.visited i ≡ true
      → (i ≡ start) ⊎ ((p : ℕ) × (s.parent i ≡ pos p) × (s.visited p ≡ true) × Linked p i)

  -- The state of a search whose slots in `open` still have edges to be followed; `n` bounds the
  -- rounds to come.
  pub record Searching (start goal n : ℕ) (open_slots : List ℕ) (s : Search) : Type 0 where
    pub traced : Traced start s
    pub begun : s.visited start ≡ true
    pub missing : s.visited goal ≡ false
    pub entered : (i : ℕ) → has i open_slots ≡ true → s.visited i ≡ true
    pub closed :
        (i : ℕ)
        → s.visited i ≡ true
        → (has i open_slots ≡ true) ⊎ ((t : ℕ) → Linked i t → s.visited t ≡ true)
    pub budget : unvisited s.visited g.node_count + length open_slots ≤ n

  pub start-Searching :
      (start goal : ℕ)
      → start < g.node_count
      → start ≢ goal
      → Searching start goal g.node_count (start ∷ []) (start_search start)
  unfolding has start_search
  start-Searching start goal h apart = record {
    traced = λ i v. inl ((==_iff i start).0 v);
    begun = ==_self start;
    missing = ground arith;
    entered = λ i v. ground arith;
    closed = λ i v. inl (rw v refl);
    budget = let b = unvisited_start start g.node_count h in omega arith;
  }

  pub mark-Traced :
      (start cur t : ℕ) (s : Search)
      → s.visited cur ≡ true
      → Linked cur t
      → Traced start s
      → Traced start (mark cur t s)
  unfolding mark
  mark-Traced start cur t s inside link h i v = elim (Bool-cases (i == t)) [
    | inl here ↦
        inr (cur, rw here refl, ground arith, subst (Linked cur) (sym ((==_iff i t).0 here)) link)
    | inr there ↦ elim (h i (ground arith)) [
      | inl first ↦ inl first
      | inr found ↦ inr (found.0, rw there found.1, ground arith, found.3)
    ]
  ]

  pub mark-Searching :
      (start goal n cur t : ℕ) (s : Search)
      → s.visited t ≡ false
      → t < g.node_count
      → t ≢ goal
      → Linked cur t
      → Searching start goal n (cur ∷ s.queue) s
      → Searching start goal n (cur ∷ (enqueue t (mark cur t s)).queue) (enqueue t (mark cur t s))
  unfolding mark enqueue has
  mark-Searching start goal n cur t s fresh low apart link h = record {
    traced = mark-Traced start cur t s (h.entered cur (rw (==_self cur) refl)) link h.traced;
    begun = let b = h.begun in ground arith;
    missing = let b = h.missing in ground arith;
    entered =
        λ i v. let old = h.entered i in let split = has-append i s.queue (t ∷ []) in ground arith;
    closed = λ i v.
        let split = has-append i s.queue (t ∷ []) in
        elim (Bool-cases (i == t)) [
          | inl here ↦ inl (rw (split, here) (ground arith))
          | inr there ↦ elim (h.closed i (ground arith)) [
            | inl waits ↦ inl (ground arith)
            | inr done ↦ inr (λ u l. let d = done u l in ground arith)
          ]
        ];
    budget =
        let fewer = unvisited-update s.visited t g.node_count low fresh in
        let old = h.budget in rw (length-append s.queue (t ∷ [])) (omega arith);
  }
