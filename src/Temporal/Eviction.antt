-- ===== src/Temporal/Eviction.antt =====
-- Whom a promotion to a full L1 roster evicts (src/core/fpsan_temporal_memory.h).
use engram_core.Prelude.{
  not, ℕ, zero, suc, ◌+◌, ◌≤◌, ◌≡◌, ◌≢◌, refl, sym, ap, ◌∙◌, inl, inr, List, [], ◌∷◌, true, false,
  ◌&&◌, ◌||◌, some, ltb, ◌==◌, ==_iff, ==_self, length, set, get_elem?, pos, subst, Bool-cases, All,
  arith, update, update_self, update_ne,
}
use engram_core.Prelude.Float.{Float}
use engram_core.Graph.Arena.{Graph}
use engram_core.Graph.Chain.{modify}
use engram_core.Temporal.{
  Slot, TemporalMemory, l1_cap, on_roster, oldest_from, lru_index, set_tier, demote, evict_lru,
  promote_to_l1,
}
use engram_core.Temporal.Roster.{DistinctSlots, IsRoster}

get_elem?-on_roster :
    (i : ℕ) (ss : List Slot) (v : Slot) → get_elem? ss i ≡ some v → on_roster v.cluster ss ≡ true
unfolding on_roster
get_elem?-on_roster i [] v h = cc
get_elem?-on_roster zero (t ∷ ss) v h =
    let same : t ≡ v = cc in rw (ap (λ s. s.cluster) same) (rw (==_self v.cluster) refl)
get_elem?-on_roster (suc i) (t ∷ ss) v h = rw (get_elem?-on_roster i ss v h) (ground arith)

-- A slot that is replaced loses its cluster, and only that one.
on_roster-replace :
    (k i : ℕ) (ss : List Slot) (s v : Slot)
    → get_elem? ss i ≡ some v
    → DistinctSlots ss
    → on_roster k (set ss i s) ≡ (s.cluster == k) || (not (v.cluster == k) && on_roster k ss)
unfolding on_roster
on_roster-replace k i [] s v h d = cc
on_roster-replace k zero (t ∷ ss) s v h d =
    let same : t ≡ v = cc in
    let gone : (t.cluster == k) ≡ true → on_roster k ss ≡ false =
      λ q. subst (λ c. on_roster c ss ≡ false) ((==_iff t.cluster k).0 q) d.0 in
    rw (sym same) (ground arith)
on_roster-replace k (suc i) (t ∷ ss) s v h d =
    rw (on_roster-replace k i ss s v h d.1) (elim (Bool-cases (v.cluster == k)) [
      | inl gone ↦
          let other : (t.cluster == k) ≡ false = off_roster k i t ss v h d.0 gone in
          rw (gone, other) (ground arith)
      | inr kept ↦ rw kept (ground arith)
    ])
  where
    off_roster :
        (k i : ℕ) (t : Slot) (ss : List Slot) (v : Slot)
        → get_elem? ss i ≡ some v
        → on_roster t.cluster ss ≡ false
        → (v.cluster == k) ≡ true
        → (t.cluster == k) ≡ false
    off_roster k i t ss v h d q =
        let held = get_elem?-on_roster i ss v h in
        elim (Bool-cases (t.cluster == k)) [
          | inr other ↦ other
          | inl same ↦
              let eq : t.cluster ≡ v.cluster = ground arith in
              let free = subst (λ c. on_roster c ss ≡ false) eq d in cc
        ]

-- The slot that is evicted has a smallest tick.
oldest_from-least :
    (full : List Slot) (idx oldest i : ℕ) (ss : List Slot) (w : Slot)
    → get_elem? full idx ≡ some w
    → w.seen ≡ oldest
    → ((j : ℕ) → get_elem? full (i + j) ≡ get_elem? ss j)
    → (v : Slot) × (get_elem? full (oldest_from idx oldest i ss) ≡ some v)
      × (v.seen ≤ oldest)
      × All (λ s. v.seen ≤ s.seen) ss
unfolding oldest_from
oldest_from-least full idx oldest i [] w at e tail = (w, at, omega arith, tt)
oldest_from-least full idx oldest i (s ∷ ss) w at e tail = elim (Bool-cases (ltb s.seen oldest)) [
  | inl older ↦
      let rest =
        oldest_from-least full i s.seen (i + 1) ss s (ap (get_elem? full) (omega arith) ∙ tail 0)
          refl (λ j. ap (get_elem? full) (omega arith) ∙ tail (suc j)) in
      rw older (rest.0, rest.1, ground (arith, rest.2), (rest.2, rest.3))
  | inr younger ↦
      let rest =
        oldest_from-least full idx oldest (i + 1) ss w at e
          (λ j. ap (get_elem? full) (omega arith) ∙ tail (suc j)) in
      rw younger (rest.0, rest.1, rest.2, (ground (arith, rest.2), rest.3))
]

lru_index-least :
    (s : Slot) (ss : List Slot)
    → (v : Slot) × (get_elem? (s ∷ ss) (lru_index (s ∷ ss)) ≡ some v)
      × All (λ t. v.seen ≤ t.seen) (s ∷ ss)
unfolding lru_index
lru_index-least s ss =
    let least = oldest_from-least (s ∷ ss) 0 s.seen 1 ss s refl refl (λ j. get_next j) in
    (least.0, least.1, (least.2, least.3))
  where
    get_next : (j : ℕ) → get_elem? (s ∷ ss) (1 + j) ≡ get_elem? ss j
    get_next j = ap (get_elem? (s ∷ ss)) (the_next j)
      where
        the_next : (j : ℕ) → 1 + j ≡ suc j
        the_next j = omega arith

apart :
    (c : ℕ) (ss : List Slot) (v : Slot)
    → on_roster c ss ≡ false
    → on_roster v.cluster ss ≡ true
    → v.cluster ≢ c
apart c ss v free held e =
    let gone = subst (λ k. on_roster k ss ≡ false) (sym e) free in
    let no : true ≡ false = sym held ∙ gone in cc

module _ {F : Float} where
  tiers :
      (c v : ℕ) (g : Graph F)
      → v ≢ c
      → let g' = modify v demote (modify c (set_tier 1) g) in
        ((g'.cortex_memory c).memory_tier ≡ 1)
        × (g'.cortex_memory v ≡ demote (g.cortex_memory v))
        × ((i : ℕ) → i ≢ c → i ≢ v → g'.cortex_memory i ≡ g.cortex_memory i)
  unfolding modify set_tier
  tiers c v g apart =
      let back : c ≢ v = λ e. apart (sym e) in
      let once = update g.cortex_memory c (set_tier 1 (g.cortex_memory c)) in
      (
        ap (λ n. n.memory_tier)
            (update_ne once v c (demote (once v)) back
              ∙ update_self g.cortex_memory c (set_tier 1 (g.cortex_memory c))),
        update_self once v (demote (once v))
            ∙ ap demote (update_ne g.cortex_memory c v (set_tier 1 (g.cortex_memory c)) apart),
        λ i a b.
            update_ne once v i (demote (once v)) b
            ∙ update_ne g.cortex_memory c i (set_tier 1 (g.cortex_memory c)) a,
      )

  evict_lru-at :
      (ss : List Slot) (v : Slot) (g : Graph F)
      → get_elem? ss (lru_index ss) ≡ some v
      → evict_lru ss g ≡ modify v.cluster demote g
  unfolding evict_lru
  evict_lru-at ss v g h = rw (evict_lru, h) refl

  -- What a promotion of a new cluster to a full roster does: some slot with a smallest tick is evicted.
  pub record Evicted (c : ℕ) (g : Graph F) (ss : List Slot) (g' : Graph F) (ss' : List Slot)
      : Type 0 where
    pub victim : Slot
    pub held : on_roster victim.cluster ss ≡ true
    pub least : All (λ t. victim.seen ≤ t.seen) ss
    pub members :
        (k : ℕ) → on_roster k ss' ≡ (c == k) || (not (victim.cluster == k) && on_roster k ss)
    pub promoted : (g'.cortex_memory c).memory_tier ≡ 1
    pub demoted : g'.cortex_memory victim.cluster ≡ demote (g.cortex_memory victim.cluster)
    pub untouched : (i : ℕ) → i ≢ c → i ≢ victim.cluster → g'.cortex_memory i ≡ g.cortex_memory i

  -- Promoting a new cluster to a full roster evicts a slot with a smallest tick: afterwards the new
  -- cluster is on the roster, the evicted one is not, and the others are as before; the new cluster has
  -- tier L1, the evicted one falls back to transient if its tier was L1, and no other node changes.
  pub promote_to_l1-Evicted :
      (c now : ℕ) (g : Graph F) (m : TemporalMemory)
      → IsRoster m.roster
      → length m.roster ≡ l1_cap
      → on_roster c m.roster ≡ false
      → Evicted c g m.roster
          (promote_to_l1 (pos c) now (g, m)).0
          (promote_to_l1 (pos c) now (g, m)).1.roster
  unfolding promote_to_l1
  promote_to_l1-Evicted c now g m h full fresh = split m.roster h full fresh
    where
      split :
          (ss : List Slot)
          → IsRoster ss
          → length ss ≡ l1_cap
          → on_roster c ss ≡ false
          → let r = promote_to_l1 (pos c) now (g, record { roster = ss }) in
            Evicted c g ss r.0 r.1.roster
      split [] v n f = let no : ⊥ = omega arith in elim no [ ]
      split (s ∷ ss) v n f =
          let out = lru_index-least s ss in
          let away =
            apart c (s ∷ ss) out.0 f
              (get_elem?-on_roster (lru_index (s ∷ ss)) (s ∷ ss) out.0 out.1) in
          let room : ltb (length (s ∷ ss)) l1_cap ≡ false = ground arith in
          rw (f, room, evict_lru-at (s ∷ ss) out.0 (modify c (set_tier 1) g) out.1)
            (record {
              victim = out.0;
              held = get_elem?-on_roster (lru_index (s ∷ ss)) (s ∷ ss) out.0 out.1;
              least = out.2;
              members = λ k.
                  on_roster-replace k (lru_index (s ∷ ss)) (s ∷ ss)
                    (record { cluster = c; seen = now }) out.0 out.1 v.distinct;
              promoted = (tiers c out.0.cluster g away).0;
              demoted = (tiers c out.0.cluster g away).1;
              untouched = (tiers c out.0.cluster g away).2;
            })
