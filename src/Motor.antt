-- ===== src/Motor.antt =====
-- MotorSequence, MotorQueue and the procedures of MotorCortex (src/core/fpsan_motor.h).
pub mod Thread
pub mod Queue
pub mod Killed
pub mod Typing
pub mod Chunks
use engram_core.Prelude.{
  ℕ, zero, suc, ◌+◌, ◌-◌, ◌%◌, List, [], ◌∷◌, ◌++◌, Bool, true, false, Option, none, some, ltb, leb,
  ◌==◌, if◌then◌else◌, update, take, drop, length, ℤ, pos, Text, same_text, map,
}
use engram_core.Graph.Node.{MotorAction, no_action}

abbrev pub motor_key_press : ℕ
motor_key_press = 1

abbrev pub motor_key_chord : ℕ
motor_key_chord = 2

abbrev pub motor_type_string : ℕ
motor_type_string = 3

abbrev pub motor_launch_app : ℕ
motor_launch_app = 4

abbrev pub motor_focus_window : ℕ
motor_focus_window = 5

abbrev pub motor_mouse_click : ℕ
motor_mouse_click = 6

abbrev pub motor_sleep_ms : ℕ
motor_sleep_ms = 7

abbrev pub motor_start_block : ℕ
motor_start_block = 8

abbrev pub motor_end_block : ℕ
motor_end_block = 9

abbrev pub max_sequence_steps : ℕ
max_sequence_steps = 32

-- `steps` is the whole array: an `add_*` sets some fields of the next slot and leaves the others.
pub record MotorSequence : Type 0 where
  pub name : Text
  pub steps : ℕ → MotorAction
  pub step_count : ℕ

unfoldable pub init_sequence : Text → MotorSequence → MotorSequence
init_sequence seq_name s = record s { name = take 63 seq_name; step_count = 0 }

-- What all `add_*` share: the guard, the slot, and the count.
unfoldable pub add_step : (MotorAction → MotorAction) → MotorSequence → MotorSequence
add_step fill s = if leb max_sequence_steps s.step_count then s else record s {
  steps = update s.steps s.step_count (fill (s.steps s.step_count));
  step_count = s.step_count + 1;
}

unfoldable pub add_key : ℕ → MotorSequence → MotorSequence
unfolding add_step
add_key vkey =
    add_step (λ a. record a { kind = motor_key_press; vkey = vkey; modifier = 0; delay_ms = 0 })

unfoldable pub add_chord : ℕ → ℕ → MotorSequence → MotorSequence
unfolding add_step
add_chord modifier vkey =
    add_step
      (λ a. record a { kind = motor_key_chord; vkey = vkey; modifier = modifier; delay_ms = 0 })

unfoldable pub add_text : ℕ → Text → MotorSequence → MotorSequence
unfolding add_step
add_text kind str = add_step (λ a. record a { kind = kind; text = take 255 str; delay_ms = 0 })

unfoldable pub add_string : Text → MotorSequence → MotorSequence
unfolding add_text
add_string str = add_text motor_type_string str

unfoldable pub add_launch : Text → MotorSequence → MotorSequence
unfolding add_text
add_launch app = add_text motor_launch_app app

unfoldable pub add_focus : Text → MotorSequence → MotorSequence
unfolding add_text
add_focus window_title = add_text motor_focus_window window_title

unfoldable pub add_delay : ℕ → MotorSequence → MotorSequence
unfolding add_step
add_delay ms = add_step (λ a. record a { kind = motor_sleep_ms; delay_ms = ms })

unfoldable pub add_mouse : ℤ → ℤ → MotorSequence → MotorSequence
unfolding add_step
add_mouse mx my =
    add_step (λ a. record a { kind = motor_mouse_click; x = mx; y = my; delay_ms = 0 })

unfoldable pub add_start_block : MotorSequence → MotorSequence
unfolding add_step
add_start_block = add_step (λ a. record a { kind = motor_start_block; delay_ms = 0 })

unfoldable pub add_end_block : MotorSequence → MotorSequence
unfolding add_step
add_end_block = add_step (λ a. record a { kind = motor_end_block; delay_ms = 0 })

pub record MotorCommand : Type 0 where
  pub action : MotorAction
  pub epoch : ℕ

abbrev pub motor_queue_size : ℕ
motor_queue_size = 256

pub record MotorQueue : Type 0 where
  pub buffer : ℕ → MotorCommand
  pub head : ℕ
  pub tail : ℕ

unfoldable pub init_queue : MotorQueue → MotorQueue
init_queue q = record q { head = 0; tail = 0 }

unfoldable pub push_command : MotorCommand → MotorQueue → MotorQueue × Bool
push_command cmd q =
    let next_tail = (q.tail + 1) % motor_queue_size in
    if next_tail == q.head
    then (q, false)
    else (record q { buffer = update q.buffer q.tail cmd; tail = next_tail }, true)

unfoldable pub pop_command : MotorQueue → MotorQueue × Option MotorCommand
pop_command q =
    if q.head == q.tail
    then (q, none)
    else (record q { head = (q.head + 1) % motor_queue_size }, some (q.buffer q.head))

unfoldable pub is_idle : MotorQueue → Bool
is_idle q = q.head == q.tail

-- `queue_action`, at the epoch that it loads.
unfoldable pub queue_action : ℕ → MotorAction → MotorQueue → MotorQueue × Bool
unfolding push_command
queue_action epoch action q = push_command (record { action = action; epoch = epoch }) q

-- The commands that `queue_string` pushes: the rounds of its loop, one for each 250 bytes.
unfoldable pub string_chunks : ℕ → ℕ → Text → List MotorCommand
string_chunks epoch zero str = []
string_chunks epoch (suc rounds) [] = []
string_chunks epoch (suc rounds) (c ∷ str) =
    record {
      action = record no_action { kind = motor_type_string; text = take 250 (c ∷ str) };
      epoch = epoch;
    }
    ∷ string_chunks epoch rounds (drop 250 (c ∷ str))

abbrev pub max_procedures : ℕ
max_procedures = 32

-- `procedures` holds the array below `procedure_count`; the index or -1 comes back.
unfoldable pub register_procedure :
    MotorSequence → List MotorSequence → List MotorSequence × Option ℕ
register_procedure seq procedures =
    if leb max_procedures (length procedures)
    then (procedures, none)
    else (procedures ++ (seq ∷ []), some (length procedures))

unfoldable pub find_procedure : Text → List MotorSequence → Option MotorSequence
find_procedure name [] = none
find_procedure name (p ∷ procedures) =
    if same_text p.name name then some p else find_procedure name procedures

-- The commands that `execute_procedure` pushes, none for an unknown procedure.
unfoldable pub step_commands : ℕ → MotorSequence → ℕ → ℕ → List MotorCommand
step_commands epoch seq zero i = []
step_commands epoch seq (suc rest) i =
    record { action = seq.steps i; epoch = epoch } ∷ step_commands epoch seq rest (i + 1)

unfoldable pub execute_procedure : ℕ → Text → List MotorSequence → Option (List MotorCommand)
unfolding find_procedure step_commands
execute_procedure epoch name procedures = elim (find_procedure name procedures) [
  | none ↦ none
  | some seq ↦ some (step_commands epoch seq seq.step_count 0)
]
