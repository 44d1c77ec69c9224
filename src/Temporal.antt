-- ===== src/Temporal.antt =====
-- The memory tiers of src/core/fpsan_temporal_memory.h: the L1 roster of at most 64 clusters, episode hubs
-- and sealed directives. Ids on the roster are never negative.
use engram_core.Prelude.{
  ℕ, zero, suc, ◌+◌, List, [], ◌∷◌, ◌++◌, Bool, true, false, ◌&&◌, ◌||◌, Option, none, some, ltb,
  ◌==◌, if◌then◌else◌, length, set, get_elem?, ℤ, pos, negsuc, minus_one,
}
use engram_core.Prelude.Float.{Float}
use engram_core.Graph.Node.{Node, add_edge, add_inverse_edge, edge_episodic_link, prov_user}
use engram_core.Graph.Arena.{Graph, spawn}
use engram_core.Graph.Chain.{modify}
pub mod Roster
pub mod Eviction

-- `l1_nodes_[i]` and `l1_seen_[i]`.
pub record Slot : Type 0 where
  pub cluster : ℕ
  pub seen : ℕ

-- The first `l1_sz_` slots.
pub record TemporalMemory : Type 0 where
  pub roster : List Slot

abbrev pub l1_cap : ℕ
l1_cap = 64

unfoldable pub on_roster : ℕ → List Slot → Bool
on_roster c [] = false
on_roster c (s ∷ ss) = (s.cluster == c) || on_roster c ss

-- `find_slot_`, and the store of the tick in the slot that it finds.
unfoldable pub touch : ℕ → ℕ → List Slot → List Slot
touch c now [] = []
touch c now (s ∷ ss) = if s.cluster == c then record s { seen = now } ∷ ss else s ∷ touch c now ss

-- The loop of `evict_lru_`: the first slot with the smallest tick, from slot `i` on.
unfoldable pub oldest_from : ℕ → ℕ → ℕ → List Slot → ℕ
oldest_from idx oldest i [] = idx
oldest_from idx oldest i (s ∷ ss) =
    if ltb s.seen oldest then oldest_from i s.seen (i + 1) ss else oldest_from idx oldest (i + 1) ss

unfoldable pub lru_index : List Slot → ℕ
unfolding oldest_from
lru_index [] = 0
lru_index (s ∷ ss) = oldest_from 0 s.seen 1 ss

module _ {F : Float} where
  unfoldable pub set_tier : ℕ → Node F → Node F
  set_tier tier n = record n { memory_tier = tier }

  -- From L1 back to transient; other tiers stay.
  unfoldable pub demote : Node F → Node F
  demote n = if n.memory_tier == 1 then record n { memory_tier = 0 } else n

  unfoldable pub evict_lru : List Slot → Graph F → Graph F
  unfolding lru_index modify demote
  evict_lru roster g = elim (get_elem? roster (lru_index roster)) [
    | none ↦ g
    | some s ↦ modify s.cluster demote g
  ]

  unfoldable pub promote_to_l1 : ℤ → ℕ → Graph F × TemporalMemory → Graph F × TemporalMemory
  unfolding modify set_tier on_roster touch evict_lru lru_index
  promote_to_l1 (negsuc _) now (g, m) = (g, m)
  promote_to_l1 (pos c) now (g, m) =
      let g' = modify c (set_tier 1) g in
      if on_roster c m.roster
      then (g', record { roster = touch c now m.roster })
      else if ltb (length m.roster) l1_cap
      then (g', record { roster = m.roster ++ (record { cluster = c; seen = now } ∷ []) })
      else (
        evict_lru m.roster g',
        record { roster = set m.roster (lru_index m.roster) (record { cluster = c; seen = now }) },
      )

  unfoldable pub link_episode : ℕ → List Slot → Graph F → Graph F
  unfolding modify
  link_episode epis [] g = g
  link_episode epis (s ∷ ss) g = link_episode epis ss (
      modify s.cluster (add_inverse_edge (pos epis) (F.lit 5 10) edge_episodic_link)
        (modify epis (add_edge (pos s.cluster) (F.lit 5 10) edge_episodic_link prov_user) g))

  unfoldable pub episode_hub : Node F → Node F
  episode_hub n = record n { is_binding_node = true; memory_tier = 2; activation = F.lit 5 100 }

  unfoldable pub spawn_episode : Graph F × TemporalMemory → Graph F × ℤ
  unfolding spawn modify episode_hub link_episode
  spawn_episode (g, m) =
      let (g', id) = spawn g in
      elim id [
        | negsuc _ ↦ (g', minus_one)
        | pos epis ↦ (link_episode epis m.roster (modify epis episode_hub g'), pos epis)
      ]

  unfoldable pub sealed : Node F → Node F
  sealed n = record n { memory_tier = 3; clamped = true; activation = F.lit 1 1 }

  unfoldable pub seal_directive : ℤ → Graph F → Graph F
  unfolding modify sealed
  seal_directive (negsuc _) g = g
  seal_directive (pos c) g = modify c sealed g

  unfoldable pub demote_all : List Slot → Graph F → Graph F
  unfolding modify demote
  demote_all [] g = g
  demote_all (s ∷ ss) g = demote_all ss (modify s.cluster demote g)

  unfoldable pub clear_working_slots : Graph F × TemporalMemory → Graph F × TemporalMemory
  unfolding demote_all
  clear_working_slots (g, m) = (demote_all m.roster g, record { roster = [] })
