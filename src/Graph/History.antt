-- ===== src/Graph/History.antt =====
-- What the temporal chain of ClusterGraph (src/core/cluster_graph.h) remembers of the clusters fired.
use engram_core.Prelude.{
  ℕ, zero, suc, ◌-◌, ◌≤◌, ◌≡◌, refl, ap, ◌∙◌, sym, inl, inr, List, [], ◌∷◌, ◌++◌, append_assoc,
  append-nil, false, ltb, arith, length, length-append, drop, map, ℤ, pos, Bool-cases, dec_lt,
  lt→ltb, negsuc, ◌==◌,
}
use engram_core.Prelude.Float.{Float, IsOrder}
use engram_core.Graph.Node.{Node, add_edge, add_inverse_edge, edge_temporal, prov_unknown}
use engram_core.Graph.AddEdge.{IsSoundNode, add_edge-IsSoundNode}
use engram_core.Graph.Arena.{Graph}
use engram_core.Graph.Chain.{chain_capacity, push_chain, record_fire, reset_chain, bond, modify}

module _ {A : Type 0} where
  drop-append : (n : ℕ) (xs ys : List A) → n ≤ length xs → drop n (xs ++ ys) ≡ drop n xs ++ ys
  drop-append zero xs ys h = refl
  drop-append (suc n) [] ys h = absurd (omega arith)
  drop-append (suc n) (x ∷ xs) ys h = drop-append n xs ys (omega arith)

  drop-one : (n : ℕ) (xs : List A) → drop 1 (drop n xs) ≡ drop (suc n) xs
  drop-one zero xs = refl
  drop-one (suc n) [] = refl
  drop-one (suc n) (x ∷ xs) = drop-one n xs

  length-drop : (n : ℕ) (xs : List A) → length (drop n xs) ≡ length xs - n
  length-drop zero xs = omega arith
  length-drop (suc n) [] = omega arith
  length-drop (suc n) (x ∷ xs) = omega (arith, length-drop n xs)

-- The youngest 32 entries.
abbrev pub recent : List ℤ → List ℤ
recent xs = drop (length xs - chain_capacity) xs

push_chain-recent : (id : ℤ) (xs : List ℤ) → push_chain id (recent xs) ≡ recent (xs ++ (id ∷ []))
unfolding push_chain
push_chain-recent id xs = elim (dec_lt (length xs) chain_capacity) [
  | yes short ↦
      let all : length xs - chain_capacity ≡ 0 = omega arith in
      let all' : length (xs ++ (id ∷ [])) - chain_capacity ≡ 0 =
        omega (arith, length-append xs (id ∷ [])) in
      rw (all, all', lt→ltb _ _ short)
  | no long ↦
      let full : ltb (length (recent xs)) chain_capacity ≡ false =
        ground (arith, length-drop (length xs - chain_capacity) xs) in
      let more : length (xs ++ (id ∷ [])) - chain_capacity ≡ suc (length xs - chain_capacity) =
        omega (arith, length-append xs (id ∷ [])) in
      rw (full, more)
        (ap (λ ys. ys ++ (id ∷ [])) (drop-one (length xs - chain_capacity) xs)
          ∙ sym (drop-append (suc (length xs - chain_capacity)) xs (id ∷ []) (omega arith)))
]

module _ {F : Float} where
  pub fire_all : List ℕ → Graph F → Graph F
  fire_all [] g = g
  fire_all (i ∷ is) g = fire_all is (record_fire i g)

  chain-bond : (lf : ℤ) (i : ℕ) (g : Graph F) → (bond lf i g).chain ≡ g.chain
  unfolding bond
  chain-bond (pos lf) i g = ground arith
  chain-bond (negsuc lf) i g = refl

  chain-fire_all :
      (is : List ℕ) (xs : List ℤ) (g : Graph F)
      → g.chain ≡ recent xs
      → (fire_all is g).chain ≡ recent (xs ++ map pos is)
  unfolding fire_all record_fire
  chain-fire_all [] xs g h = rw append-nil h
  chain-fire_all (i ∷ is) xs g h =
      chain-fire_all is (xs ++ (pos i ∷ [])) (record_fire i g)
        (ap (push_chain (pos i)) h ∙ push_chain-recent (pos i) xs)
      ∙ ap recent (append_assoc xs (pos i ∷ []) (map pos is))

  -- After a reset and any sequence of fired clusters, the chain holds the last 32 of them in order.
  pub chain_remembers :
      (is : List ℕ) (g : Graph F) → (fire_all is (reset_chain g)).chain ≡ recent (map pos is)
  unfolding reset_chain
  chain_remembers is g = chain-fire_all is [] (reset_chain g) refl

  -- Every node of the graph is sound.
  abbrev pub AllSound : Graph F → Type 0
  AllSound g = (i : ℕ) → IsSoundNode (g.cortex_memory i)

  pub modify-AllSound :
      (i : ℕ) (f : Node F → Node F) (g : Graph F)
      → ((n : Node F) → IsSoundNode n → IsSoundNode (f n))
      → AllSound g
      → AllSound (modify i f g)
  unfolding modify
  modify-AllSound i f g keep h j = elim (Bool-cases (j == i)) [
    | inl here ↦ rw here (keep _ (h i))
    | inr there ↦ rw there (h j)
  ]

  bond-AllSound : IsOrder F → (lf : ℤ) (i : ℕ) (g : Graph F) → AllSound g → AllSound (bond lf i g)
  unfolding bond
  bond-AllSound o (negsuc _) i g h = h
  bond-AllSound o (pos lf) i g h = elim (Bool-cases (lf == i)) [
    | inl same ↦ rw same h
    | inr apart ↦ rw apart (
        modify-AllSound i (add_inverse_edge (pos lf) (F.lit 2 10) edge_temporal)
          (modify lf (add_edge (pos i) (F.lit 2 10) edge_temporal prov_unknown) g)
          (λ n v. (add_edge-IsSoundNode o (pos lf) (F.lit 2 10) edge_temporal prov_unknown n v).1)
          (modify-AllSound lf (add_edge (pos i) (F.lit 2 10) edge_temporal prov_unknown) g
            (λ n v. (add_edge-IsSoundNode o (pos i) (F.lit 2 10) edge_temporal prov_unknown n v).0)
            h))
  ]

  -- `record_fire` keeps every node of the graph sound.
  pub record_fire-AllSound :
      IsOrder F → (i : ℕ) (g : Graph F) → AllSound g → AllSound (record_fire i g)
  unfolding record_fire
  record_fire-AllSound o i g h = bond-AllSound o g.last_fired i g h
