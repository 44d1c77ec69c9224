-- ===== src/Tests/SelfEdit.antt =====
-- The registry of artefacts (src/core/fpsan_self_edit_registry.h) at concrete inputs.
use engram_core.Prelude.{
  ◌+◌, ◌≡◌, [], ◌∷◌, ◌++◌, false, some, map, filterb, if◌then◌else◌, ◌==◌, arith,
}
use engram_core.SelfEdit.{
  SelfEditRecord, SelfEditRegistry, is_due, is_live, janitor_sweep, live_bytes, register_or_touch,
}
use engram_core.SelfEdit.Cap.{IsRegistered, Registered, register_or_touch-Registered}
use engram_core.SelfEdit.Janitor.{swept, due_bytes, janitor_sweep-swept}

abbrev tool : SelfEditRecord
tool = record {
  artefact_path = 97 ∷ [];
  kind = 119 ∷ [];
  created_episode = 1;
  last_invocation_episode = 1;
  last_invocation_ft = 1000;
  bytes_disk = 4096;
  bytes_rss_estimate = 0;
  pruned_episode = 0;
  l3_pinned = false;
}

abbrev shelf : SelfEditRegistry
shelf = record { records = tool ∷ []; csv_rows = []; deleted = [] }

shelf-IsRegistered : IsRegistered shelf.records
shelf-IsRegistered = record { small = (omega arith, tt); unique = λ path. ground arith }

register_or_touch-Registered_example :
    Registered
      (98 ∷ [])
      100
      shelf.records
      (register_or_touch 2000 (some (98 ∷ [])) (some (119 ∷ [])) 2 100 false shelf)
register_or_touch-Registered_example =
    register_or_touch-Registered 2000 (98 ∷ []) (119 ∷ []) 2 100 false shelf (omega arith)
      (unfold live_bytes is_live in omega arith) shelf-IsRegistered

janitor_sweep-swept_example :
    ((janitor_sweep 2000 60 shelf).records ≡ map (swept 2000 60) shelf.records)
    × ((janitor_sweep 2000 60 shelf).deleted
        ≡ shelf.deleted ++ map (λ r. r.artefact_path) (filterb (is_due 2000 60) shelf.records))
    × (live_bytes (janitor_sweep 2000 60 shelf).records
          + (if 60 == 0 then 0 else due_bytes 2000 60 shelf.records)
        ≡ live_bytes shelf.records)
janitor_sweep-swept_example = janitor_sweep-swept 2000 60 shelf
