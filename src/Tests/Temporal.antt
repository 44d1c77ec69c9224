-- ===== src/Tests/Temporal.antt =====
-- The L1 roster (src/core/fpsan_temporal_memory.h) at concrete inputs: it is full, and slot `n` was seen at
-- tick `n`.
use engram_core.Prelude.{ℕ, zero, suc, ◌≤◌, ◌≡◌, refl, List, [], ◌∷◌, false, arith, pos}
use engram_core.Temporal.{Slot, TemporalMemory, on_roster, promote_to_l1}
use engram_core.Temporal.Roster.{DistinctSlots, IsRoster}
use engram_core.Temporal.Eviction.{Evicted, promote_to_l1-Evicted}
use engram_core.Tests.Activity.{linked_graph}

abbrev slots : ℕ → List Slot
slots zero = []
slots (suc n) = record { cluster = n; seen = n } ∷ slots n

slots_off : (k n : ℕ) → n ≤ k → on_roster k (slots n) ≡ false
unfolding on_roster
slots_off k zero h = refl
slots_off k (suc n) h = rw (slots_off k n (omega arith)) (ground arith)

slots_distinct : (n : ℕ) → DistinctSlots (slots n)
slots_distinct zero = tt
slots_distinct (suc n) = (slots_off n n (omega arith), slots_distinct n)

abbrev full : TemporalMemory
full = record { roster = slots 64 }

full-IsRoster : IsRoster full.roster
full-IsRoster = record { few = omega arith; distinct = slots_distinct 64 }

promote_to_l1-Evicted_example :
    Evicted 70 linked_graph full.roster
      (promote_to_l1 (pos 70) 99 (linked_graph, full)).0
      (promote_to_l1 (pos 70) 99 (linked_graph, full)).1.roster
promote_to_l1-Evicted_example =
    promote_to_l1-Evicted 70 99 linked_graph full full-IsRoster refl (slots_off 70 64 (omega arith))
