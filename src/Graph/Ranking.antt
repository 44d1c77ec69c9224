-- ===== src/Graph/Ranking.antt =====
-- `get_top_activated` of src/core/cluster_graph.h against a ranking of all candidates.
use engram_core.Prelude.{
  take, ℕ, zero, suc, ◌+◌, ◌≡◌, refl, ap, ◌∙◌, sym, List, [], ◌∷◌, false, if◌then◌else◌, Bool-cases,
  inl, inr, All, Bool, not, ◌&&◌, countb, arith,
}
use engram_core.Prelude.Float.{Float, IsOrder}
use engram_core.Neuromod.{NeuromodState}
use engram_core.Graph.Arena.{Graph}
use engram_core.Graph.Spread.{activation_of, cutoff}
use engram_core.Graph.Activity.{insert_rank, is_candidate, top_loop, get_top_activated}

module _ {A : Type 0} where
  take-take-suc : (n : ℕ) (xs : List A) → take n (take (suc n) xs) ≡ take n xs
  take-take-suc zero xs = refl
  take-take-suc (suc n) [] = refl
  take-take-suc (suc n) (x ∷ xs) = ap (◌∷◌ x) (take-take-suc n xs)

  take-cons-take : (n : ℕ) (x : A) (xs : List A) → take n (x ∷ take n xs) ≡ take n (x ∷ xs)
  take-cons-take zero x xs = refl
  take-cons-take (suc n) x xs = ap (◌∷◌ x) (take-take-suc n xs)

  take-nil : (n : ℕ) → take {A = A} n [] ≡ []
  take-nil zero = refl
  take-nil (suc n) = refl

  countb_moved :
      (p : A → Bool) (x : A) (xs ys : List A)
      → countb p (x ∷ xs) + countb p ys ≡ countb p xs + countb p (x ∷ ys)
  countb_moved p x xs ys = ground arith

module _ (F : Float) where
  abbrev pub IsRanked : List (ℕ × F.Carrier) → Type 0
  IsRanked [] = Unit
  IsRanked (x ∷ xs) = All (λ y. F.ltb x.1 y.1 ≡ false) xs × IsRanked xs

  take-insert_rank :
      (n : ℕ) (x : ℕ × F.Carrier) (xs : List (ℕ × F.Carrier))
      → take n (insert_rank F x (take n xs)) ≡ take n (insert_rank F x xs)
  unfolding insert_rank
  take-insert_rank zero x xs = refl
  take-insert_rank (suc n) x [] = refl
  take-insert_rank (suc n) x (y ∷ ys) = elim (Bool-cases (F.ltb y.1 x.1)) [
    | inl better ↦ rw better (ap (◌∷◌ x) (take-cons-take n y ys))
    | inr worse ↦ rw worse (ap (◌∷◌ y) (take-insert_rank n x ys))
  ]

  insert_rank-All :
      (P : ℕ × F.Carrier → Type 0) (x : ℕ × F.Carrier) (xs : List (ℕ × F.Carrier))
      → P x
      → All P xs
      → All P (insert_rank F x xs)
  unfolding insert_rank
  insert_rank-All P x [] p h = (p, tt)
  insert_rank-All P x (y ∷ ys) p h = elim (Bool-cases (F.ltb y.1 x.1)) [
    | inl better ↦ rw better (p, h)
    | inr worse ↦ rw worse (h.0, insert_rank-All P x ys p h.1)
  ]

  countb-insert_rank :
      (p : ℕ × F.Carrier → Bool) (x : ℕ × F.Carrier) (xs : List (ℕ × F.Carrier))
      → countb p (insert_rank F x xs) ≡ countb p (x ∷ xs)
  unfolding insert_rank
  countb-insert_rank p x [] = refl
  countb-insert_rank p x (y ∷ ys) = elim (Bool-cases (F.ltb y.1 x.1)) [
    | inl better ↦ rw better
    | inr worse ↦ rw (worse, countb-insert_rank p x ys) (ground arith)
  ]

module _ {F : Float} where
  -- All candidates from index `i` on, put in rank by rank with nothing dropped.
  unfoldable rank_loop :
      NeuromodState F → Graph F → ℕ → ℕ → List (ℕ × F.Carrier) → List (ℕ × F.Carrier)
  rank_loop m g zero i ranked = ranked
  rank_loop m g (suc rest) i ranked = rank_loop m g rest (i + 1) (
      if is_candidate m (g.cortex_memory i)
      then insert_rank F (i, activation_of g i) ranked
      else ranked)

  unfoldable ranking : NeuromodState F → Graph F → List (ℕ × F.Carrier)
  ranking m g = rank_loop m g g.node_count 0 []

  top_loop-rank_loop :
      (m : NeuromodState F) (g : Graph F) (n rest i : ℕ) (ranked : List (ℕ × F.Carrier))
      → top_loop m g n rest i (take n ranked) ≡ take n (rank_loop m g rest i ranked)
  unfolding top_loop rank_loop
  top_loop-rank_loop m g n zero i ranked = refl
  top_loop-rank_loop m g n (suc rest) i ranked =
      elim (Bool-cases (is_candidate m (g.cortex_memory i))) [
        | inl fits ↦
            rw (fits, take-insert_rank F n (i, activation_of g i) ranked)
              (top_loop-rank_loop m g n rest (i + 1) (insert_rank F (i, activation_of g i) ranked))
        | inr out ↦ rw out (top_loop-rank_loop m g n rest (i + 1) ranked)
      ]

  module _ (o : IsOrder F) where
    weaken :
        (x y : ℕ × F.Carrier) (ys : List (ℕ × F.Carrier))
        → F.ltb x.1 y.1 ≡ false
        → All (λ z. F.ltb y.1 z.1 ≡ false) ys
        → All (λ z. F.ltb x.1 z.1 ≡ false) ys
    weaken x y [] h k = tt
    weaken x y (z ∷ zs) h k = (o.ge_trans _ _ _ h k.0, weaken x y zs h k.1)

    insert_rank-IsRanked :
        (x : ℕ × F.Carrier) (xs : List (ℕ × F.Carrier))
        → IsRanked F xs
        → IsRanked F (insert_rank F x xs)
    unfolding insert_rank
    insert_rank-IsRanked x [] h = (tt, tt)
    insert_rank-IsRanked x (y ∷ ys) h = elim (Bool-cases (F.ltb y.1 x.1)) [
      | inl better ↦
          let above = o.asymm y.1 x.1 better in rw better ((above, weaken x y ys above h.0), h)
      | inr worse ↦ rw worse (
        insert_rank-All F (λ z. F.ltb y.1 z.1 ≡ false) x ys worse h.0,
        insert_rank-IsRanked x ys h.1,
      )
    ]

    rank_loop-IsRanked :
        (m : NeuromodState F) (g : Graph F) (rest i : ℕ) (ranked : List (ℕ × F.Carrier))
        → IsRanked F ranked
        → IsRanked F (rank_loop m g rest i ranked)
    unfolding rank_loop
    rank_loop-IsRanked m g zero i ranked h = h
    rank_loop-IsRanked m g (suc rest) i ranked h =
        elim (Bool-cases (is_candidate m (g.cortex_memory i))) [
          | inl fits ↦ rw fits (
              rank_loop-IsRanked m g rest (i + 1) _
                (insert_rank-IsRanked (i, activation_of g i) ranked h))
          | inr out ↦ rw out (rank_loop-IsRanked m g rest (i + 1) ranked h)
        ]

  -- The slots below the count from `i` on that are alive and whose activation is not `<=` the cutoff,
  -- in the order of the slots.
  abbrev pub candidates_from : NeuromodState F → Graph F → ℕ → ℕ → List (ℕ × F.Carrier)
  candidates_from m g zero i = []
  candidates_from m g (suc rest) i =
      let later = candidates_from m g rest (i + 1) in
      let n = g.cortex_memory i in
      if n.alive && not (F.leb n.activation (cutoff F m)) then (i, n.activation) ∷ later else later

  rank_loop-countb :
      (m : NeuromodState F) (g : Graph F) (p : ℕ × F.Carrier → Bool) (rest i : ℕ)
      (ranked : List (ℕ × F.Carrier))
      → countb p (rank_loop m g rest i ranked)
        ≡ countb p ranked + countb p (candidates_from m g rest i)
  unfolding rank_loop
  rank_loop-countb m g p zero i ranked = omega arith
  rank_loop-countb m g p (suc rest) i ranked =
      elim (Bool-cases (is_candidate m (g.cortex_memory i))) [
        | inl fits ↦
            rw
              (
                fits,
                rank_loop-countb m g p rest (i + 1) (insert_rank F (i, activation_of g i) ranked),
                countb-insert_rank F p (i, activation_of g i) ranked,
              )
              (countb_moved p (i, activation_of g i) ranked (candidates_from m g rest (i + 1)))
        | inr out ↦ rw (out, rank_loop-countb m g p rest (i + 1) ranked) refl
      ]

  -- The answer is the beginning of a list in descending order that holds each candidate as often as
  -- the slots do.
  abbrev pub Ranks : NeuromodState F → ℕ → Graph F → List (ℕ × F.Carrier) → Type 0
  Ranks m max_n g top =
      (ranked : List (ℕ × F.Carrier)) × (top ≡ take max_n ranked)
      × IsRanked F ranked
      × ((p : ℕ × F.Carrier → Bool)
          → countb p ranked ≡ countb p (candidates_from m g g.node_count 0))

  -- Where `<` orders the activations, `get_top_activated` returns the first `max_n` entries of a list
  -- that is in descending order of activation and holds exactly the live nodes above the cutoff, each
  -- as often as it stands in the slots: dropping entries on the way loses none.
  pub get_top_activated-Ranks :
      IsOrder F
      → (m : NeuromodState F) (max_n : ℕ) (g : Graph F)
      → Ranks m max_n g (get_top_activated m max_n g)
  unfolding get_top_activated ranking
  get_top_activated-Ranks o m max_n g = (
    ranking m g,
    ap (top_loop m g max_n g.node_count 0) (sym (take-nil max_n))
        ∙ top_loop-rank_loop m g max_n g.node_count 0 [],
    rank_loop-IsRanked o m g g.node_count 0 [] tt,
    λ p. omega (arith, rank_loop-countb m g p g.node_count 0 []),
  )
