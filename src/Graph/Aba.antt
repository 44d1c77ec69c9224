-- ===== src/Graph/Aba.antt =====
-- Two threads on the free list of ClusterGraph (src/core/cluster_graph.h). The tag in `free_head` is lost
-- whenever the list runs empty, so a thread that was delayed in `spawn` can meet its old head again.
use engram_core.Prelude.{
  ap, ℕ, ◌+◌, ◌^◌, ◌<◌, ◌≡◌, ◌≢◌, refl, ◌∙◌, inl, inr, [], ◌∷◌, true, false, ◌==◌, ==_iff, arith, ℤ,
  pos, Bool-cases, update, if◌then◌else◌,
}
use engram_core.Prelude.Float.{Float}
use engram_core.Graph.Node.{init_node}
use engram_core.Graph.Arena.{
  Graph, cortex_capacity, free_stack_empty, tag_of, id_of, head_below, spawn, kill, load_top,
  swap_top,
}
use engram_core.Graph.FreeList.{
  IsArena, Spawned, spawn-Spawned, kill-IsArena, spawn_reuse, top_of-pack,
}

low_half : (a : ℕ) → a < 2 ^ 32 → id_of (2 ^ 32 + a) ≡ a
low_half a h = omega arith

module _ {F : Float} where
  -- A thread that is not disturbed between the two halves does what `spawn` does.
  swap_top-load_top :
      (g : Graph F)
      → (g.free_head == free_stack_empty) ≡ false
      → spawn g ≡ ((swap_top (load_top g) g).0, pos (id_of g.free_head))
  unfolding spawn swap_top load_top
  swap_top-load_top g h = ground (arith, h)

  head-empty : (g : Graph F) → IsArena g [] → g.free_head ≡ free_stack_empty
  head-empty g v = elim (Bool-cases (g.free_head == free_stack_empty)) [
    | inl none_free ↦ ground arith
    | inr some_free ↦ cc (rw some_free at v.links)
  ]

  -- The tag starts again at 0 after the list was empty, whatever it was before.
  head-kill-kill :
      (g : Graph F) (a b : ℕ)
      → IsArena g []
      → a < cortex_capacity
      → b < cortex_capacity
      → (kill a (kill b g)).free_head ≡ 2 ^ 32 + a
  unfolding kill
  head-kill-kill g a b v ha hb = omega (arith, head-empty g v)

  next-kill-kill :
      (g : Graph F) (a b : ℕ)
      → IsArena g []
      → b < cortex_capacity
      → (kill a (kill b g)).free_next a ≡ pos b
  unfolding kill
  next-kill-kill g a b v hb = ground (arith, head-empty g v)

  swap_done :
      (m : Graph F) (h : ℕ) (z : ℤ)
      → m.free_head ≡ h
      → swap_top (h, z) m ≡ (
        record m {
          free_head = head_below h z;
          cortex_memory = update m.cortex_memory (id_of h) init_node;
        },
        true,
      )
  unfolding swap_top
  swap_done m h z e = rw ((==_iff m.free_head h).1 e)

  -- `a` lies on the list over `b`; the other thread takes both and gives back `c` and then `a`.
  abbrev pub before_race : Graph F → ℕ → ℕ → Graph F
  before_race g a b = kill a (kill b g)

  abbrev pub meanwhile : Graph F → ℕ → ℕ → ℕ → Graph F
  meanwhile g a b c = kill a (kill c (spawn (spawn (before_race g a b)).0).0)

  pub record Race (g : Graph F) (a b c : ℕ) : Type 0 where
    pub empty : IsArena g []
    pub a_in : a < g.node_count
    pub b_in : b < g.node_count
    pub c_in : c < g.node_count
    pub a_live : (g.cortex_memory a).alive ≡ true
    pub b_live : (g.cortex_memory b).alive ≡ true
    pub c_live : (g.cortex_memory c).alive ≡ true
    pub ab : a ≢ b
    pub ac : a ≢ c
    pub bc : b ≢ c

  module _ (g : Graph F) (a b c : ℕ) (r : Race g a b c) where
    two_free : IsArena (before_race g a b) (a ∷ b ∷ [])
    two_free =
        kill-IsArena (kill b g) (b ∷ []) a (kill-IsArena g [] b r.empty r.b_in r.b_live)
          (unfold kill in r.a_in) (unfold kill in ground (arith, r.a_live, r.ab))

    first : Spawned (before_race g a b) (a ∷ b ∷ []) (spawn (before_race g a b))
    first = spawn-Spawned (before_race g a b) (a ∷ b ∷ []) two_free

    second : Spawned (spawn (before_race g a b)).0 (b ∷ []) (spawn (spawn (before_race g a b)).0)
    second = spawn-Spawned (spawn (before_race g a b)).0 (b ∷ []) first.1

    -- What both calls leave in a slot, and the count.
    taken :
        (i : ℕ)
        → ((spawn (spawn (before_race g a b)).0).0.cortex_memory i).alive
          ≡ (if i == b then true else if i == a then true else (g.cortex_memory i).alive)
    unfolding init_node
    taken i = rw (second.2, first.2) (unfold kill in ground arith)

    count : (spawn (spawn (before_race g a b)).0).0.node_count ≡ g.node_count
    count = second.3 ∙ first.3 ∙ (unfold kill in refl)

    head_again : (meanwhile g a b c).free_head ≡ 2 ^ 32 + a
    head_again =
        head-kill-kill _ a c second.1 (omega (arith, r.empty.few, r.a_in))
          (omega (arith, r.empty.few, r.c_in))

    loaded : load_top (before_race g a b) ≡ (2 ^ 32 + a, pos b)
    unfolding load_top
    loaded =
        let small : a < 2 ^ 32 = omega (arith, r.empty.few, r.a_in) in
        rw (
          head-kill-kill g a b r.empty (omega (arith, r.empty.few, r.a_in))
              (omega (arith, r.empty.few, r.b_in)),
          low_half a small,
          next-kill-kill g a b r.empty (omega (arith, r.empty.few, r.b_in)),
        )

    late : Graph F
    late = record (meanwhile g a b c) {
      free_head = head_below (2 ^ 32 + a) (pos b);
      cortex_memory = update (meanwhile g a b c).cortex_memory (id_of (2 ^ 32 + a)) init_node;
    }

    alive-meanwhile : ((meanwhile g a b c).cortex_memory b).alive ≡ true
    unfolding kill
    alive-meanwhile = ground (arith, taken b, r.ab, r.bc)

    -- For every graph with no free slot and any three distinct live nodes a, b and c: if a thread
    -- in `spawn` has read the head a over b, and meanwhile both are spawned and c and a are
    -- killed, then its compare-and-swap succeeds although b has left the list, and the next
    -- `spawn` hands out b, which is alive.
    pub aba :
        let (late, done) = swap_top (load_top (before_race g a b)) (meanwhile g a b c) in
        (done ≡ true) × ((late.cortex_memory b).alive ≡ true) × ((spawn late).1 ≡ pos b)
    unfolding late
    aba =
        rw (loaded, swap_done (meanwhile g a b c) (2 ^ 32 + a) (pos b) head_again)
          (
            refl,
            still,
            ap (λ s. s.1)
                (spawn_reuse late b
                  (top_of-pack (tag_of (2 ^ 32 + a) + 1) b (omega (arith, r.empty.few, r.b_in)))),
          )
      where
        still : (late.cortex_memory b).alive ≡ true
        still =
            rw (low_half a (omega (arith, r.empty.few, r.a_in)))
              (ground (arith, alive-meanwhile, r.ab))
