-- ===== src/Modules.antt =====
-- The module registry of src/core/fpsan_module_registry.h. The modules behind the interface of
-- src/core/fpsan_iface.h are states of a type `S` with that interface's calls; each is registered once.
use engram_core.Prelude.{
  ℕ, zero, suc, ◌+◌, ◌-◌, ◌%◌, ◌^◌, Bool, true, false, ◌&&◌, ◌||◌, not, Option, none, some, ltb,
  leb, ◌==◌, if◌then◌else◌, update, List, [], ◌∷◌,
}
pub mod Quarantine

pub record ModuleTickContext : Type 0 where
  pub tick_id : ℕ
  pub now_ns : ℕ
  pub budget_ns : ℕ

-- `IModule`; of `ModuleHealth` only `ok` is read.
pub record IModule (S : Type 0) : Type 0 where
  pub start : S → S × Bool
  pub tick : ModuleTickContext → S → S
  pub shutdown : S → S
  pub healthy : S → Bool

-- `NullSpatial`, `NullRecompiler`, `NullSensor`, `NullActuator` and `NullSpeakerIface`.
unfoldable pub null_module : IModule Unit
null_module = record {
  start = λ s. (s, true);
  tick = λ ctx s. s;
  shutdown = λ s. s;
  healthy = λ s. true;
}

pub record Entry (S : Type 0) : Type 0 where
  pub module_state : Option S
  pub failures : ℕ
  pub quarantined : Bool

pub record ModuleRegistry (S : Type 0) : Type 0 where
  pub module_count : ℕ
  pub entries : ℕ → Entry S

abbrev pub max_modules : ℕ
max_modules = 64

module _ {S : Type 0} where
  unfoldable pub register_module : Option S → ModuleRegistry S → ModuleRegistry S × Bool
  register_module none r = (r, false)
  register_module (some m) r =
      if ltb r.module_count max_modules
      then (
        record {
          module_count = r.module_count + 1;
          entries =
              update r.entries r.module_count
                (record { module_state = some m; failures = 0; quarantined = false });
        },
        true,
      )
      else (record r { module_count = max_modules }, false)

  -- A loop over the registered entries, which do not depend on one another.
  unfoldable pub each_entry : (Entry S → Entry S) → ModuleRegistry S → ModuleRegistry S
  each_entry f r = record r {
    entries = λ i. if ltb i r.module_count then f (r.entries i) else r.entries i;
  }

  module _ (ops : IModule S) where
    unfoldable pub start_entry : Entry S → Entry S × Bool
    start_entry e = elim e.module_state [
      | none ↦ (e, false)
      | some m ↦ let (m', ok) = ops.start m in (record e { module_state = some m' }, ok)
    ]

    -- Whether the first `n` entries all start.
    unfoldable pub all_started : (ℕ → Entry S) → ℕ → Bool
    unfolding start_entry
    all_started entries zero = true
    all_started entries (suc n) = all_started entries n && (start_entry (entries n)).1

    unfoldable pub init_all : ModuleRegistry S → ModuleRegistry S × Bool
    unfolding each_entry start_entry all_started
    init_all r = (each_entry (λ e. (start_entry e).0) r, all_started r.entries r.module_count)

    unfoldable pub tick_entry : ModuleTickContext → Entry S → Entry S
    tick_entry ctx e = elim e.module_state [
      | none ↦ e
      | some m ↦ if e.quarantined then e else record e { module_state = some (ops.tick ctx m) }
    ]

    unfoldable pub tick_all : ModuleTickContext → ModuleRegistry S → ModuleRegistry S
    unfolding each_entry tick_entry
    tick_all ctx r = each_entry (tick_entry ctx) r

    unfoldable pub note_failure : ℕ → Entry S → Entry S
    note_failure fail_limit e =
        let failures = (e.failures + 1) % 2 ^ 32 in
        record e { failures = failures; quarantined = leb fail_limit failures || e.quarantined }

    -- `if (e.failures) --e.failures;`, and the tick.
    unfoldable pub note_health : ModuleTickContext → S → Entry S → Entry S
    note_health ctx m e = record e {
      failures = e.failures - 1;
      module_state = some (ops.tick ctx m);
    }

    unfoldable pub check_entry : ModuleTickContext → ℕ → Entry S → Entry S
    unfolding note_failure note_health
    check_entry ctx fail_limit e = elim e.module_state [
      | none ↦ e
      | some m ↦
          if e.quarantined
          then e
          else if ops.healthy m
          then note_health ctx m e
          else note_failure fail_limit e
    ]

    unfoldable pub tick_health_all : ModuleTickContext → ℕ → ModuleRegistry S → ModuleRegistry S
    unfolding each_entry check_entry
    tick_health_all ctx fail_limit r = each_entry (check_entry ctx fail_limit) r

    unfoldable pub shutdown_entry : Entry S → Entry S
    shutdown_entry e = elim e.module_state [
      | none ↦ e
      | some m ↦ record e { module_state = some (ops.shutdown m) }
    ]

    unfoldable pub shutdown_all : ModuleRegistry S → ModuleRegistry S
    unfolding each_entry shutdown_entry
    shutdown_all r = each_entry shutdown_entry r
