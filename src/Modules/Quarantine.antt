-- ===== src/Modules/Quarantine.antt =====
-- When the registry of src/core/fpsan_module_registry.h quarantines a module, and what follows.
use engram_core.Prelude.{
  ℕ, ◌+◌, ◌≤◌, ◌<◌, ◌≡◌, refl, sym, ◌∙◌, false, Option, none, some, ltb, leb, if◌then◌else◌, List,
  [], ◌∷◌, Bool-cases, inl, inr, arith, lt→ltb, ◌^◌,
}
use engram_core.Modules.{
  Entry, IModule, ModuleRegistry, ModuleTickContext, check_entry, each_entry, max_modules,
  note_failure, note_health, register_module, tick_all, tick_entry, tick_health_all,
}

-- A sweep of all modules, of either kind.
pub data Sweep : Type 0 where
  ticked : ModuleTickContext → Sweep
  checked : ModuleTickContext → Sweep

abbrev pub checks_in : List Sweep → ℕ
checks_in [] = 0
checks_in (ticked ctx ∷ ss) = checks_in ss
checks_in (checked ctx ∷ ss) = checks_in ss + 1

module _ {S : Type 0} where
  -- The count stays within the table, and the entries in use are quarantined just when their failures
  -- have reached the limit.
  pub record IsRegistry (fail_limit : ℕ) (r : ModuleRegistry S) : Type 0 where
    pub few : r.module_count ≤ max_modules
    pub guarded :
        (i : ℕ)
        → i < r.module_count
        → (r.entries i).quarantined ≡ leb fail_limit (r.entries i).failures

  -- `register_module` takes a module just when one of the 64 places is left, keeps the registry sound,
  -- and changes no entry in use.
  pub register_module-IsRegistry :
      (fail_limit : ℕ) (m : S) (r : ModuleRegistry S)
      → 0 < fail_limit
      → IsRegistry fail_limit r
      → IsRegistry fail_limit (register_module (some m) r).0
        × ((register_module (some m) r).1 ≡ ltb r.module_count max_modules)
        × ((i : ℕ) → i < r.module_count → (register_module (some m) r).0.entries i ≡ r.entries i)
  unfolding register_module
  register_module-IsRegistry fail_limit m r pos h =
      elim (Bool-cases (ltb r.module_count max_modules)) [
        | inl room ↦ rw room (
          record { few = ground arith; guarded = λ i low. let g = h.guarded i in ground arith },
          refl,
          λ i low. ground arith,
        )
        | inr full ↦ rw full (
          record {
            few = omega arith;
            guarded = λ i low. let b = h.few in h.guarded i (ground arith);
          },
          refl,
          λ i low. refl,
        )
      ]

  module _ (ops : IModule S) where
    check_entry-guarded :
        (ctx : ModuleTickContext) (fail_limit : ℕ) (e : Entry S)
        → 0 < fail_limit
        → fail_limit < 2 ^ 32
        → e.quarantined ≡ leb fail_limit e.failures
        → (check_entry ops ctx fail_limit e).quarantined
          ≡ leb fail_limit (check_entry ops ctx fail_limit e).failures
    unfolding check_entry note_failure note_health
    check_entry-guarded ctx fail_limit e pos small h = step e.module_state
      where
        step :
            (m : Option S)
            → let e' : Entry S = elim m [
              | none ↦ e
              | some m ↦
                  if e.quarantined
                  then e
                  else if ops.healthy m
                  then note_health ops ctx m e
                  else note_failure ops fail_limit e
            ] in
              e'.quarantined ≡ leb fail_limit e'.failures
        step none = h
        step (some m) = elim (Bool-cases e.quarantined) [
          | inl out ↦ rw out (sym out ∙ h)
          | inr inside ↦ elim (Bool-cases (ops.healthy m)) [
            | inl well ↦ rw (inside, well) (ground arith)
            | inr ill ↦ rw (inside, ill) (ground arith)
          ]
        ]

    -- `tick_health_all` keeps a registry sound for the limit it is called with.
    pub tick_health_all-IsRegistry :
        (ctx : ModuleTickContext) (fail_limit : ℕ) (r : ModuleRegistry S)
        → 0 < fail_limit
        → fail_limit < 2 ^ 32
        → IsRegistry fail_limit r
        → IsRegistry fail_limit (tick_health_all ops ctx fail_limit r)
    unfolding tick_health_all each_entry
    tick_health_all-IsRegistry ctx fail_limit r pos small h = record {
      few = h.few;
      guarded = λ i low.
          rw (lt→ltb i r.module_count low)
            (check_entry-guarded ctx fail_limit (r.entries i) pos small (h.guarded i low));
    }

    pub sweeps : ℕ → List Sweep → ModuleRegistry S → ModuleRegistry S
    sweeps fail_limit [] r = r
    sweeps fail_limit (ticked ctx ∷ ss) r = sweeps fail_limit ss (tick_all ops ctx r)
    sweeps fail_limit (checked ctx ∷ ss) r =
        sweeps fail_limit ss (tick_health_all ops ctx fail_limit r)

    module _ (fail_limit : ℕ) (pos : 0 < fail_limit) (small : fail_limit < 2 ^ 32)
        (Ill : S → Type 0) (fails : (m : S) → Ill m → ops.healthy m ≡ false)
        (stays : (ctx : ModuleTickContext) (m : S) → Ill m → Ill (ops.tick ctx m)) where
      -- An entry whose module is ill, and which is quarantined just when its failures reach the limit.
      abbrev Sick : Entry S → Type 0
      Sick e =
          (m : S) × (e.module_state ≡ some m) × Ill m × (e.quarantined ≡ leb fail_limit e.failures)

      tick_entry-Sick :
          (ctx : ModuleTickContext) (e : Entry S)
          → Sick e
          → Sick (tick_entry ops ctx e) × ((tick_entry ops ctx e).failures ≡ e.failures)
      unfolding tick_entry
      tick_entry-Sick ctx e (m, here, ill, guarded) = elim (Bool-cases e.quarantined) [
        | inl out ↦ rw (here, out) ((m, refl, ill, sym out ∙ guarded), refl)
        | inr inside ↦
            rw (here, inside) ((ops.tick ctx m, refl, stays ctx m ill, sym inside ∙ guarded), refl)
      ]

      check_entry-Sick :
          (ctx : ModuleTickContext) (n : ℕ) (e : Entry S)
          → Sick e
          → Sick (check_entry ops ctx fail_limit e)
            × (leb fail_limit ((check_entry ops ctx fail_limit e).failures + n)
                ≡ leb fail_limit (e.failures + (n + 1)))
      unfolding check_entry note_failure
      check_entry-Sick ctx n e (m, here, ill, guarded) = elim (Bool-cases e.quarantined) [
        | inl out ↦ rw (here, out) ((m, refl, ill, sym out ∙ guarded), ground arith)
        | inr inside ↦ rw (here, inside, fails m ill) ((m, refl, ill, ground arith), ground arith)
      ]

      sweeps_lem :
          (ss : List Sweep) (r : ModuleRegistry S) (i : ℕ)
          → i < r.module_count
          → Sick (r.entries i)
          → ((sweeps fail_limit ss r).entries i).quarantined
            ≡ leb fail_limit ((r.entries i).failures + checks_in ss)
      unfolding sweeps tick_all tick_health_all each_entry
      sweeps_lem [] r i low sick = rw sick.3 (ground arith)
      sweeps_lem (ticked ctx ∷ ss) r i low sick =
          let one = tick_entry-Sick ctx (r.entries i) sick in
          sweeps_lem ss (tick_all ops ctx r) i low (rw (lt→ltb i r.module_count low) one.0)
          ∙ (rw (lt→ltb i r.module_count low, one.1) refl)
      sweeps_lem (checked ctx ∷ ss) r i low sick =
          let one = check_entry-Sick ctx (checks_in ss) (r.entries i) sick in
          sweeps_lem ss (tick_health_all ops ctx fail_limit r) i low
            (rw (lt→ltb i r.module_count low) one.0)
          ∙ (rw (lt→ltb i r.module_count low) one.1)

      -- Where the limit is above 0 and below 2^32: a registered module is ill and stays ill under ticks,
      -- and is quarantined at first just when its failures reach the limit. Then, after any row of ticks
      -- and health checks of the whole registry, it is quarantined just when the failures it had and the
      -- health checks of the row together reach the limit, whatever the other modules do.
      pub sweeps_quarantine :
          (ss : List Sweep) (r : ModuleRegistry S) (i : ℕ) (m : S)
          → i < r.module_count
          → (r.entries i).module_state ≡ some m
          → Ill m
          → (r.entries i).quarantined ≡ leb fail_limit (r.entries i).failures
          → ((sweeps fail_limit ss r).entries i).quarantined
            ≡ leb fail_limit ((r.entries i).failures + checks_in ss)
      sweeps_quarantine ss r i m low here ill guarded =
          sweeps_lem ss r i low (m, here, ill, guarded)
