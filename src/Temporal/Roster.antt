-- ===== src/Temporal/Roster.antt =====
-- The L1 roster of src/core/fpsan_temporal_memory.h: what it holds, and whom a promotion evicts.
use engram_core.Prelude.{
  ℕ, zero, suc, ◌≤◌, ◌≡◌, ◌≢◌, refl, ap, ◌∙◌, inl, inr, List, [], ◌∷◌, ◌++◌, false, ◌||◌, ltb, ◌==◌,
  length, length-append, length-set, set, ℤ, pos, negsuc, Bool-cases, arith,
}
use engram_core.Prelude.Float.{Float}
use engram_core.Graph.Arena.{Graph}
use engram_core.Temporal.{
  Slot, TemporalMemory, l1_cap, on_roster, touch, lru_index, promote_to_l1, clear_working_slots,
}

abbrev pub DistinctSlots : List Slot → Type 0
DistinctSlots [] = Unit
DistinctSlots (s ∷ ss) = (on_roster s.cluster ss ≡ false) × DistinctSlots ss

-- At most 64 slots, and no cluster on two of them.
pub record IsRoster (ss : List Slot) : Type 0 where
  pub few : length ss ≤ l1_cap
  pub distinct : DistinctSlots ss

on_roster-append :
    (c : ℕ) (ss : List Slot) (s : Slot)
    → on_roster c (ss ++ (s ∷ [])) ≡ on_roster c ss || (s.cluster == c)
unfolding on_roster
on_roster-append c [] s = ground arith
on_roster-append c (t ∷ ss) s = rw (on_roster-append c ss s) (ground arith)

append-Distinct :
    (ss : List Slot) (s : Slot)
    → on_roster s.cluster ss ≡ false
    → DistinctSlots ss
    → DistinctSlots (ss ++ (s ∷ []))
unfolding on_roster
append-Distinct [] s h d = (refl, tt)
append-Distinct (t ∷ ss) s h d = (
  rw (on_roster-append t.cluster ss s) (ground (arith, d.0)),
  append-Distinct ss s (ground arith) d.1,
)

on_roster-touch : (c k now : ℕ) (ss : List Slot) → on_roster c (touch k now ss) ≡ on_roster c ss
unfolding on_roster touch
on_roster-touch c k now [] = refl
on_roster-touch c k now (s ∷ ss) = elim (Bool-cases (s.cluster == k)) [
  | inl here ↦ rw here refl
  | inr there ↦ rw (there, on_roster-touch c k now ss) refl
]

touch-Distinct : (k now : ℕ) (ss : List Slot) → DistinctSlots ss → DistinctSlots (touch k now ss)
unfolding touch
touch-Distinct k now [] d = tt
touch-Distinct k now (s ∷ ss) d = elim (Bool-cases (s.cluster == k)) [
  | inl here ↦ rw here d
  | inr there ↦ rw there (on_roster-touch s.cluster k now ss ∙ d.0, touch-Distinct k now ss d.1)
]

length-touch : (k now : ℕ) (ss : List Slot) → length (touch k now ss) ≡ length ss
unfolding touch
length-touch k now [] = refl
length-touch k now (s ∷ ss) = elim (Bool-cases (s.cluster == k)) [
  | inl here ↦ rw here refl
  | inr there ↦ rw there (ap suc (length-touch k now ss))
]

on_roster-set :
    (c i : ℕ) (ss : List Slot) (s : Slot)
    → on_roster c ss ≡ false
    → s.cluster ≢ c
    → on_roster c (set ss i s) ≡ false
unfolding on_roster
on_roster-set c i [] s h n = refl
on_roster-set c zero (t ∷ ss) s h n = ground arith
on_roster-set c (suc i) (t ∷ ss) s h n = rw (on_roster-set c i ss s (ground arith) n) (ground arith)

set-Distinct :
    (i : ℕ) (ss : List Slot) (s : Slot)
    → on_roster s.cluster ss ≡ false
    → DistinctSlots ss
    → DistinctSlots (set ss i s)
unfolding on_roster
set-Distinct i [] s h d = tt
set-Distinct zero (t ∷ ss) s h d = (ground arith, d.1)
set-Distinct (suc i) (t ∷ ss) s h d =
    (on_roster-set t.cluster i ss s d.0 (ground arith), set-Distinct i ss s (ground arith) d.1)

module _ {F : Float} where
  -- Promotions and the clearing of the working slots keep at most 64 slots, no cluster on two of them.
  pub promote_to_l1-IsRoster :
      (c : ℤ) (now : ℕ) (g : Graph F) (m : TemporalMemory)
      → IsRoster m.roster
      → IsRoster (promote_to_l1 c now (g, m)).1.roster
        × IsRoster (clear_working_slots (g, m)).1.roster
  unfolding promote_to_l1 clear_working_slots
  promote_to_l1-IsRoster (negsuc n) now g m h = (h, record { few = omega arith; distinct = tt })
  promote_to_l1-IsRoster (pos c) now g m h = (promoted, record { few = omega arith; distinct = tt })
    where
      new : Slot
      new = record { cluster = c; seen = now }

      promoted : IsRoster (promote_to_l1 (pos c) now (g, m)).1.roster
      promoted = elim (Bool-cases (on_roster c m.roster)) [
        | inl known ↦ rw known (record {
          few = let b = h.few in omega (arith, length-touch c now m.roster);
          distinct = touch-Distinct c now m.roster h.distinct;
        })
        | inr fresh ↦ elim (Bool-cases (ltb (length m.roster) l1_cap)) [
          | inl room ↦
              rw (fresh, room)
                (record {
                  few = rw (length-append m.roster (new ∷ [])) (ground arith);
                  distinct = append-Distinct m.roster new fresh h.distinct;
                })
          | inr full ↦
              rw (fresh, full)
                (record {
                  few =
                      let b = h.few in omega (arith, length-set m.roster (lru_index m.roster) new);
                  distinct = set-Distinct (lru_index m.roster) m.roster new fresh h.distinct;
                })
        ]
      ]
