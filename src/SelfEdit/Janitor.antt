-- ===== src/SelfEdit/Janitor.antt =====
-- What a sweep of the janitor does (src/core/fpsan_self_edit_registry.h).
use engram_core.Prelude.{
  ℕ, ◌+◌, ◌≡◌, sym, ◌∙◌, inl, inr, List, [], ◌∷◌, ◌++◌, append_assoc, append-nil, true, ◌==◌,
  if◌then◌else◌, map, filterb, Bool-cases, arith,
}
use engram_core.SelfEdit.{
  SelfEditRecord, SelfEditRegistry, is_live, live_bytes, is_due, sweep_loop, janitor_sweep, pruned,
}

abbrev pub swept : ℕ → ℕ → SelfEditRecord → SelfEditRecord
swept now episode r = if is_due now episode r then record r { pruned_episode = episode } else r

-- The bytes of the records that are due.
abbrev pub due_bytes : ℕ → ℕ → List SelfEditRecord → ℕ
due_bytes now episode [] = 0
due_bytes now episode (r ∷ rs) =
    (if is_due now episode r then r.bytes_disk else 0) + due_bytes now episode rs

sweep_loop-swept :
    (now episode : ℕ) (rs : List SelfEditRecord) (s : SelfEditRegistry)
    → ((sweep_loop now episode rs s).records ≡ s.records ++ map (swept now episode) rs)
      × ((sweep_loop now episode rs s).deleted
          ≡ s.deleted ++ map (λ r. r.artefact_path) (filterb (is_due now episode) rs))
unfolding sweep_loop
sweep_loop-swept now episode [] s = (sym (append-nil s.records), sym (append-nil s.deleted))
sweep_loop-swept now episode (r ∷ rs) s = elim (Bool-cases (is_due now episode r)) [
  | inl due ↦
      let dead = record r { pruned_episode = episode } in
      let rest = sweep_loop-swept now episode rs (record s {
        records = s.records ++ (dead ∷ []);
        csv_rows = s.csv_rows ++ ((pruned, dead) ∷ []);
        deleted = s.deleted ++ (r.artefact_path ∷ []);
      }) in
      rw (sweep_loop, due)
        (
          rest.0 ∙ append_assoc s.records (dead ∷ []) (map (swept now episode) rs),
          rest.1
              ∙ append_assoc s.deleted (r.artefact_path ∷ [])
                  (map (λ r. r.artefact_path) (filterb (is_due now episode) rs)),
        )
  | inr keep ↦
      let rest = sweep_loop-swept now episode rs (record s { records = s.records ++ (r ∷ []) }) in
      rw (sweep_loop, keep)
        (rest.0 ∙ append_assoc s.records (r ∷ []) (map (swept now episode) rs), rest.1)
]

due-live :
    (now episode : ℕ) (r : SelfEditRecord)
    → is_due now episode r ≡ true
    → (r.pruned_episode == 0) ≡ true
unfolding is_due is_live
due-live now episode r due = ground arith

swept-bytes :
    (now episode : ℕ) (rs : List SelfEditRecord)
    → live_bytes (map (swept now episode) rs)
        + (if episode == 0 then 0 else due_bytes now episode rs)
      ≡ live_bytes rs
unfolding live_bytes
swept-bytes now episode [] = ground arith
swept-bytes now episode (r ∷ rs) =
    let rest = swept-bytes now episode rs in
    elim (Bool-cases (is_due now episode r)) [
      | inl due ↦ let live = due-live now episode r due in rw (due, live) (ground arith)
      | inr keep ↦ rw keep (ground arith)
    ]

-- A sweep marks exactly the live records that are not pinned and idle, in place, and deletes their
-- files, in order. The bytes of those records leave the total if the episode is not 0; at episode 0
-- they stay in it.
pub janitor_sweep-swept :
    (now episode : ℕ) (s : SelfEditRegistry)
    → ((janitor_sweep now episode s).records ≡ map (swept now episode) s.records)
      × ((janitor_sweep now episode s).deleted
          ≡ s.deleted ++ map (λ r. r.artefact_path) (filterb (is_due now episode) s.records))
      × (live_bytes (janitor_sweep now episode s).records
            + (if episode == 0 then 0 else due_bytes now episode s.records)
          ≡ live_bytes s.records)
unfolding janitor_sweep
janitor_sweep-swept now episode s =
    let done = sweep_loop-swept now episode s.records (record s { records = [] }) in
    (done.0, done.1, rw done.0 (swept-bytes now episode s.records))
