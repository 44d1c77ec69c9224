-- ===== src/Tests/Daemon.antt =====
-- The drives and the module registry (src/core/fpsan_drives.h, src/core/fpsan_module_registry.h) at concrete
-- inputs.
use engram_core.Prelude.{
  Text, ℕ, zero, suc, ◌+◌, ◌≡◌, refl, [], ◌∷◌, Bool, true, false, some, arith, length, drop, leb,
}
use engram_core.Prelude.Float.{thousandths}
use engram_core.Drives.{
  tracked, HomeostaticDrives, fresh_drives, on_unknown_word, pop_question, pop_fetch_topic,
}
use engram_core.Drives.Words.{IsTracked, words-IsTracked}
use engram_core.Drives.Goals.{GoalPlanner, execute, execute_steps}
use engram_core.Modules.{IModule, ModuleRegistry, ModuleTickContext}
use engram_core.Modules.Quarantine.{checked, ticked, checks_in, sweeps, sweeps_quarantine}

abbrev curious : HomeostaticDrives thousandths
curious = record (fresh_drives thousandths) {
  unknown_words = (97 ∷ []) ∷ (98 ∷ []) ∷ (99 ∷ []) ∷ [];
}

curious-IsTracked : IsTracked curious.unknown_words
curious-IsTracked = record {
  few = omega arith;
  short = (omega arith, (omega arith, (omega arith, tt)));
  distinct = unfold tracked in (refl, (refl, (refl, tt)));
}

words-IsTracked_example :
    IsTracked (on_unknown_word thousandths (100 ∷ []) curious).unknown_words
    × IsTracked (pop_question thousandths curious).0.unknown_words
    × IsTracked (pop_fetch_topic thousandths curious).0.unknown_words
words-IsTracked_example = words-IsTracked (100 ∷ []) curious (omega arith) curious-IsTracked

abbrev repeat : ℕ → Text
repeat zero = []
repeat (suc n) = 97 ∷ repeat n

-- A module whose state is whether it is well.
abbrev flag : IModule Bool
flag = record {
  start = λ b. (true, true);
  tick = λ ctx b. b;
  shutdown = λ b. false;
  healthy = λ b. b;
}

abbrev now : ModuleTickContext
now = record { tick_id = 1; now_ns = 1000; budget_ns = 1000 }

abbrev one_module : ModuleRegistry Bool
one_module = record {
  module_count = 1;
  entries = λ i. record { module_state = some false; failures = 3; quarantined = false };
}

abbrev two_steps : GoalPlanner
two_steps = record {
  description = [];
  steps = (97 ∷ []) ∷ (98 ∷ []) ∷ [];
  current_step = 0;
  active = true;
}

execute_steps_example : execute 2 two_steps ≡ (
  record two_steps { current_step = length two_steps.steps; active = false },
  drop two_steps.current_step two_steps.steps,
)
execute_steps_example = execute_steps 2 two_steps refl (omega arith) (omega arith)

sweeps_quarantine_example :
    ((sweeps flag 4 (checked now ∷ ticked now ∷ []) one_module).entries 0).quarantined
    ≡ leb 4 ((one_module.entries 0).failures + checks_in (checked now ∷ ticked now ∷ []))
sweeps_quarantine_example =
    sweeps_quarantine flag 4 (omega arith) (omega arith) (λ b. b ≡ false) (λ m ill. ill)
      (λ ctx m ill. ill) (checked now ∷ ticked now ∷ []) one_module 0 false (omega arith) refl refl
      refl
