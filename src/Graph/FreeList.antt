-- ===== src/Graph/FreeList.antt =====
-- The free list of ClusterGraph (src/core/cluster_graph.h): which slots it holds, and what `spawn` and
-- `kill` do to it.
use engram_core.Prelude.{
  subst, sym, ◌&&◌, update_self, ℕ, ◌+◌, ◌^◌, ◌≤◌, ◌<◌, ◌≡◌, refl, inl, inr, List, [], ◌∷◌, Bool,
  true, false, not, ltb, ◌==◌, if◌then◌else◌, arith, update, ℤ, pos, minus_one, Bool-cases,
}
use engram_core.Prelude.Float.{Float}
use engram_core.Graph.Node.{Node, init_node}
use engram_core.Graph.Arena.{
  Graph, cortex_capacity, free_stack_empty, pack, tag_of, id_of, head_below, top_of, init, spawn,
  kill,
}

-- Following `next` from `top` passes the ids of the list and ends at -1.
abbrev pub Links : (ℕ → ℤ) → ℤ → List ℕ → Type 0
Links next top [] = top ≡ minus_one
Links next top (x ∷ xs) = (top ≡ pos x) × Links next (next x) xs

abbrev pub contains : ℕ → List ℕ → Bool
contains i [] = false
contains i (x ∷ xs) = if x == i then true else contains i xs

abbrev pub IsDistinct : List ℕ → Type 0
IsDistinct [] = Unit
IsDistinct (x ∷ xs) = (contains x xs ≡ false) × IsDistinct xs

-- A write to `next` at an id off the list does not show.
Links-update :
    (next : ℕ → ℤ) (i : ℕ) (z top : ℤ) (xs : List ℕ)
    → contains i xs ≡ false
    → Links next top xs
    → Links (update next i z) top xs
Links-update next i z top [] h l = l
Links-update next i z top (x ∷ xs) h l = (
  l.0,
  subst (λ t. Links (update next i z) t xs) (ground (arith, h))
      (Links-update next i z (next x) xs (ground (arith, h)) l.1),
)

pub pos_inj : {a b : ℕ} → pos a ≡ pos b → a ≡ b
pos_inj h = cc

-- A packed head is not the sentinel, and its top is the id in it.
pub top_of-pack : (tag id : ℕ) → id < 2 ^ 18 + 1 → top_of (pack tag id) ≡ pos id
top_of-pack tag id h = ground arith

module _ {F : Float} where
  -- `xs` are the free slots, youngest first: the slots in use below `node_count` that hold no node.
  pub record IsArena (g : Graph F) (xs : List ℕ) : Type 0 where
    pub few : g.node_count ≤ cortex_capacity
    pub word : g.free_head < 2 ^ 64
    pub links : Links g.free_next (top_of g.free_head) xs
    pub distinct : IsDistinct xs
    pub dead_iff : (i : ℕ) → contains i xs ≡ (ltb i g.node_count && not (g.cortex_memory i).alive)

  pub init-IsArena :
      (raw : ℕ → Node F) (raw_next : ℕ → ℤ) (n : ℕ) (g : Graph F)
      → IsArena (init raw raw_next n g) []
  unfolding init init_node
  init-IsArena raw raw_next n g = record {
    few = ground arith;
    word = omega arith;
    links = refl;
    distinct = tt;
    dead_iff = λ i. ground arith;
  }

  -- What `spawn` returns and leaves, on each of its three branches.
  abbrev pub Spawned : Graph F → List ℕ → Graph F × ℤ → Type 0
  Spawned g (x ∷ xs) (g', id) =
      (id ≡ pos x)
      × IsArena g' xs
      × (g'.cortex_memory ≡ update g.cortex_memory x init_node)
      × (g'.node_count ≡ g.node_count)
  Spawned g [] (g', id) =
      if ltb g.node_count cortex_capacity
      then (id ≡ pos g.node_count)
        × IsArena g' []
        × (g'.cortex_memory ≡ update g.cortex_memory g.node_count init_node)
        × (g'.node_count ≡ g.node_count + 1)
      else (id ≡ minus_one) × (g' ≡ g)

  pub spawn_reuse :
      (g : Graph F) (x : ℕ)
      → top_of g.free_head ≡ pos x
      → spawn g ≡ (
        record g {
          free_head = head_below g.free_head (g.free_next x);
          cortex_memory = update g.cortex_memory x init_node;
        },
        pos x,
      )
  unfolding spawn
  spawn_reuse g x h = elim (Bool-cases (g.free_head == free_stack_empty)) [
    | inl none_free ↦ cc (rw none_free at h)
    | inr some_free ↦
        let e : id_of g.free_head ≡ x = pos_inj (rw some_free at h) in rw (some_free, e)
  ]

  spawn_next :
      (g : Graph F)
      → top_of g.free_head ≡ minus_one
      → ltb g.node_count cortex_capacity ≡ true
      → spawn g ≡ (
        record g {
          node_count = g.node_count + 1;
          cortex_memory = update g.cortex_memory g.node_count init_node;
          free_next = update g.free_next g.node_count minus_one;
        },
        pos g.node_count,
      )
  unfolding spawn
  spawn_next g h room = elim (Bool-cases (g.free_head == free_stack_empty)) [
    | inl none_free ↦ rw (none_free, room)
    | inr some_free ↦ cc (rw some_free at h)
  ]

  spawn_full :
      (g : Graph F)
      → top_of g.free_head ≡ minus_one
      → ltb g.node_count cortex_capacity ≡ false
      → spawn g ≡ (g, minus_one)
  unfolding spawn
  spawn_full g h full = elim (Bool-cases (g.free_head == free_stack_empty)) [
    | inl none_free ↦ rw (none_free, full)
    | inr some_free ↦ cc (rw some_free at h)
  ]

  next-IsArena :
      (g : Graph F)
      → IsArena g []
      → ltb g.node_count cortex_capacity ≡ true
      → IsArena
          (record g {
            node_count = g.node_count + 1;
            cortex_memory = update g.cortex_memory g.node_count init_node;
            free_next = update g.free_next g.node_count minus_one;
          })
          []
  unfolding init_node
  next-IsArena g v room = record {
    few = ground arith;
    word = v.word;
    links = v.links;
    distinct = tt;
    dead_iff = λ i. ground (arith, v.dead_iff i);
  }

  free_below :
      {g : Graph F} {xs : List ℕ} (y : ℕ) → IsArena g xs → contains y xs ≡ true → y < g.node_count
  free_below y v h = ground (arith, v.dead_iff y)

  -- The links from the id below the top, and the new head that names it.
  head_below-Links :
      (g : Graph F) (x : ℕ) (xs : List ℕ)
      → IsArena g (x ∷ xs)
      → (head_below g.free_head (g.free_next x) < 2 ^ 64)
        × Links g.free_next (top_of (head_below g.free_head (g.free_next x))) xs
  head_below-Links g x [] v = rw (v.links.1) (omega arith, refl)
  head_below-Links g x (y ∷ ys) v =
      let small : y < g.node_count = free_below y v (ground arith) in
      rw (v.links.1.0) (
        omega (arith, v.few),
        (top_of-pack (tag_of g.free_head + 1) y (omega (arith, v.few)), v.links.1.1),
      )

  -- On a sound arena `spawn` takes the youngest free slot if there is one, else the next slot of
  -- the arena, else fails with no change; the slot gets a clean node, all other nodes stay, and
  -- the free list stays sound.
  pub spawn-Spawned : (g : Graph F) (xs : List ℕ) → IsArena g xs → Spawned g xs (spawn g)
  spawn-Spawned g [] v = elim (Bool-cases (ltb g.node_count cortex_capacity)) [
    | inl room ↦
        subst (Spawned g []) (sym (spawn_next g v.links room))
          (rw room (refl, next-IsArena g v room, refl, refl))
    | inr full ↦ subst (Spawned g []) (sym (spawn_full g v.links full)) (rw full (refl, refl))
  ]
  spawn-Spawned g (x ∷ xs) v =
      subst (Spawned g (x ∷ xs)) (sym (spawn_reuse g x v.links.0)) (refl, arena, refl, refl)
    where
      arena :
          IsArena
            (record g {
              free_head = head_below g.free_head (g.free_next x);
              cortex_memory = update g.cortex_memory x init_node;
            })
            xs
      arena = record {
        few = v.few;
        word = (head_below-Links g x xs v).0;
        links = (head_below-Links g x xs v).1;
        distinct = v.distinct.1;
        dead_iff = λ i. unfold init_node in ground (arith, v.dead_iff i, v.distinct.0);
      }

  pub kill-IsArena :
      (g : Graph F) (xs : List ℕ) (id : ℕ)
      → IsArena g xs
      → id < g.node_count
      → (g.cortex_memory id).alive ≡ true
      → IsArena (kill id g) (id ∷ xs)
  unfolding kill
  kill-IsArena g xs id v h live = record {
    few = v.few;
    word = omega arith;
    links = (top_of-pack (tag_of g.free_head + 1) id (omega (arith, v.few)), below);
    distinct = (ground (arith, v.dead_iff id), v.distinct);
    dead_iff = λ i. ground (arith, v.dead_iff i);
  }
    where
      below :
          Links
            (update g.free_next id (top_of g.free_head))
            (update g.free_next id (top_of g.free_head) id)
            xs
      below =
          subst (λ z. Links (update g.free_next id (top_of g.free_head)) z xs)
            (sym (update_self g.free_next id (top_of g.free_head)))
            (Links-update g.free_next id (top_of g.free_head) (top_of g.free_head) xs
              (ground (arith, v.dead_iff id)) v.links)
