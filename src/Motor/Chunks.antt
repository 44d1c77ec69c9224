-- ===== src/Motor/Chunks.antt =====
-- How `queue_string` (src/core/fpsan_motor.h) cuts a string.
use engram_core.Prelude.{
  ℕ, zero, suc, ◌≤◌, ◌<◌, ◌≡◌, ◌∙◌, refl, ap, List, [], ◌∷◌, ◌++◌, All, length, take, drop,
  take-drop, length-take, length-drop, Text, arith,
}
use engram_core.Motor.{MotorCommand, string_chunks, motor_type_string}

abbrev pub texts : List MotorCommand → Text
texts [] = []
texts (cmd ∷ cmds) = cmd.action.text ++ texts cmds

-- A command to type between 1 and 250 bytes at that epoch.
pub record IsChunk (epoch : ℕ) (cmd : MotorCommand) : Type 0 where
  pub types : cmd.action.kind ≡ motor_type_string
  pub at_epoch : cmd.epoch ≡ epoch
  pub some_bytes : 0 < length cmd.action.text
  pub few_bytes : length cmd.action.text ≤ 250

-- The commands type the string back to back, whatever its length: none is empty, none is longer
-- than 250 bytes, and all have the epoch that was loaded first.
pub string_chunks-texts :
    (epoch rounds : ℕ) (str : Text)
    → length str ≤ rounds
    → (texts (string_chunks epoch rounds str) ≡ str)
      × All (IsChunk epoch) (string_chunks epoch rounds str)
unfolding string_chunks
string_chunks-texts epoch zero [] h = (refl, tt)
string_chunks-texts epoch zero (c ∷ str) h = absurd (omega arith)
string_chunks-texts epoch (suc rounds) [] h = (refl, tt)
string_chunks-texts epoch (suc rounds) (c ∷ str) h =
    let all = c ∷ str in
    let rest =
      string_chunks-texts epoch rounds (drop 250 all) (omega (arith, length-drop 250 all)) in
    (
      ap (λ k. take 250 all ++ k) rest.0 ∙ take-drop 250 all,
      (
        record {
          types = refl;
          at_epoch = refl;
          some_bytes = omega (arith, length-take 250 all);
          few_bytes = omega (arith, length-take 250 all);
        },
        rest.1,
      ),
    )
