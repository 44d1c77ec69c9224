-- ===== src/Tests/Motor.antt =====
-- The motor cortex (src/core/fpsan_motor.h) at concrete inputs.
use engram_core.Prelude.{ℕ, ◌≡◌, refl, [], ◌∷◌, true, false, some, arith, ltb, All, codes}
use engram_core.Graph.Node.{no_action}
use engram_core.Motor.{MotorCommand, MotorQueue, string_chunks}
use engram_core.Motor.Chunks.{IsChunk, texts, string_chunks-texts}
use engram_core.Motor.Thread.{
  World, Thread, key_down, key_up, motor_round, motor_rounds, type_string, check_kill_switch,
  perform, send_key,
}
use engram_core.Motor.Killed.{Silent, killed-Silent}
use engram_core.Motor.Typing.{TypedPart, type_string-TypedPart}

-- ESC is held from the fifth look on.
abbrev desk : World
desk = record {
  esc = λ k. ltb 4 k;
  foreground = λ k. 1;
  aborts = λ k. 0;
  resets = λ k. false;
  launches = λ k. (true, false);
  search_windows = λ k title. some 1;
  screen_w = 1920;
  screen_h = 1080;
}

abbrev idle : Thread
idle = record {
  killed = false;
  current_indent_level = 0;
  current_motor_epoch = 2;
  focus_aborts = 0;
  clock = 0;
  sent = [];
}

abbrev press : ℕ → ℕ → MotorCommand
press epoch vkey = record { action = record no_action { kind = 1; vkey = vkey }; epoch = epoch }

abbrev wrapped_queue : MotorQueue
wrapped_queue = record { buffer = λ i. press 2 i; head = 255; tail = 1 }

key_runs : (motor_round desk (press 2 65) idle).sent ≡ key_down 65 ∷ key_up 65 ∷ []
unfolding motor_round check_kill_switch perform send_key
key_runs = refl

killed-Silent_example :
    Silent
      (record idle { killed = true })
      (motor_rounds desk (press 2 65 ∷ press 2 66 ∷ []) (record idle { killed = true }))
killed-Silent_example =
    killed-Silent desk (press 2 65 ∷ press 2 66 ∷ []) (record idle { killed = true }) (λ k. refl)
      refl

type_string-TypedPart_example : TypedPart (codes "ab") idle (type_string desk (codes "ab") 2 idle)
type_string-TypedPart_example = type_string-TypedPart desk (codes "ab") 2 idle (λ k. refl)

string_chunks-texts_example :
    (texts (string_chunks 2 3 (codes "abc")) ≡ codes "abc")
    × All (IsChunk 2) (string_chunks 2 3 (codes "abc"))
string_chunks-texts_example = string_chunks-texts 2 3 (codes "abc") (omega arith)
