-- ===== src/Motor/Thread.antt =====
-- The motor thread of MotorCortex (src/core/fpsan_motor.h): `motor_loop` and the primitives that it calls.
-- What Windows and the main thread do meanwhile is a parameter, read at a clock of the thread's own.
use engram_core.Prelude.{
  ℕ, zero, suc, ◌+◌, ◌-◌, ◌*◌, ◌/◌, ◌%◌, ◌^◌, List, [], ◌∷◌, ◌++◌, Bool, true, false, not, Option,
  none, some, ltb, ◌==◌, if◌then◌else◌, ℤ, pos, negsuc, Text,
}
use engram_core.Graph.Node.{MotorAction}
use engram_core.Motor.{
  MotorCommand, MotorQueue, pop_command, motor_key_press, motor_key_chord, motor_type_string,
  motor_launch_app, motor_focus_window, motor_mouse_click, motor_start_block, motor_end_block,
}

-- At each look: whether ESC is held, the window in front, how often the main thread has called
-- `abort_sequence` and whether it has called `reset_kill_switch` since the last look, whether CreateProcess and ShellExecute succeed, and the
-- window that EnumWindows finds.
pub record World : Type 0 where
  pub esc : ℕ → Bool
  pub foreground : ℕ → ℕ
  pub aborts : ℕ → ℕ
  pub resets : ℕ → Bool
  pub launches : ℕ → Bool × Bool
  pub search_windows : ℕ → Text → Option ℕ
  pub screen_w : ℕ
  pub screen_h : ℕ

-- What reaches Windows.
pub data Sent : Type 0 where
  key_down : ℕ → Sent
  key_up : ℕ → Sent
  unicode_down : ℕ → Sent
  unicode_up : ℕ → Sent
  click : ℤ → ℤ → Sent
  launched : Text → Sent
  focused : ℕ → Sent

pub record Thread : Type 0 where
  pub killed : Bool
  pub current_indent_level : ℕ
  pub current_motor_epoch : ℕ
  pub focus_aborts : ℕ
  pub clock : ℕ
  pub sent : List Sent

abbrev pub epochs : ℕ
epochs = 2 ^ 64

abbrev pub vk_return : ℕ
vk_return = 0x0d

abbrev pub vk_tab : ℕ
vk_tab = 0x09

abbrev pub vk_back : ℕ
vk_back = 0x08

-- Time passes up to the next look.
unfoldable pub look : World → Thread → Thread
look w t = record t {
  clock = t.clock + 1;
  killed = if w.resets t.clock then false else t.killed;
  current_motor_epoch = (t.current_motor_epoch + w.aborts t.clock) % epochs;
}

unfoldable pub emit : List Sent → Thread → Thread
emit events t = record t { sent = t.sent ++ events }

unfoldable pub abort_sequence : Thread → Thread
abort_sequence t = record t { current_motor_epoch = (t.current_motor_epoch + 1) % epochs }

unfoldable pub check_kill_switch : World → Thread → Thread × Bool
unfolding look abort_sequence
check_kill_switch w t =
    let t' = look w t in
    if w.esc t.clock
    then (if t'.killed then t' else abort_sequence (record t' { killed = true }), true)
    else (t', t'.killed)

unfoldable pub reset_kill_switch : Thread → Thread
reset_kill_switch t = record t { killed = false }

-- A primitive that sends the events unless the kill switch is on.
unfoldable pub guarded : World → List Sent → Thread → Thread × Bool
unfolding emit
guarded w events t =
    let (t', stop) = check_kill_switch w t in if stop then (t', false) else (emit events t', true)

unfoldable pub send_key : World → ℕ → Thread → Thread × Bool
unfolding guarded
send_key w vkey t = guarded w (key_down vkey ∷ key_up vkey ∷ []) t

unfoldable pub send_chord : World → ℕ → ℕ → Thread → Thread × Bool
unfolding guarded
send_chord w modifier vkey t =
    guarded w (key_down modifier ∷ key_down vkey ∷ key_up vkey ∷ key_up modifier ∷ []) t

-- `(WORD)c` of a signed `char`.
abbrev pub wide : ℕ → ℕ
wide c = if ltb c 128 then c else c + 0xff00

abbrev pub typed_events : ℕ → List Sent
typed_events c = unicode_down (wide c) ∷ unicode_up (wide c) ∷ []

unfoldable pub type_syntax : ℕ → Thread → Thread
unfolding emit
type_syntax c t = emit (typed_events c) t

-- One round of the loop of `type_string`: the thread after it, and whether the loop goes on.
unfoldable pub type_char : World → ℕ → ℕ → ℕ → Thread → Thread × Bool
unfolding look emit
type_char w epoch target c t =
    let loaded = look w t in
    let (checked, stop) = check_kill_switch w loaded in
    let front = look w checked in
    if not (epoch == loaded.current_motor_epoch)
    then (loaded, false)
    else if stop
    then (checked, false)
    else if not (w.foreground checked.clock == target)
    then (record front { focus_aborts = front.focus_aborts + 1 }, false)
    else if c == b'\n'
    then ((send_key w vk_return front).0, true)
    else (emit (typed_events c) front, true)

unfoldable pub type_loop : World → ℕ → ℕ → Text → Thread → Thread × Bool
type_loop w epoch target [] t = (t, true)
type_loop w epoch target (c ∷ str) t =
    let (t', more) = type_char w epoch target c t in
    let rest = type_loop w epoch target str t' in if more then rest else (t', false)

unfoldable pub type_string : World → Text → ℕ → Thread → Thread × Bool
unfolding look
type_string w str epoch t =
    let (checked, stop) = check_kill_switch w t in
    if stop
    then (checked, false)
    else type_loop w epoch (w.foreground checked.clock) str (look w checked)

unfoldable pub launch_app : World → Text → Thread → Thread × Bool
unfolding look emit
launch_app w app t =
    let (checked, stop) = check_kill_switch w t in
    let (created, opened) = w.launches checked.clock in
    if stop
    then (checked, false)
    else if created
    then (emit (launched app ∷ []) (look w checked), true)
    else if opened
    then (emit (launched app ∷ []) (look w checked), true)
    else (look w checked, false)

-- The polls of `focus_window` that are left.
unfoldable pub focus_polls : World → Text → ℕ → Thread → Thread × Bool
unfolding look emit
focus_polls w title zero t = (t, false)
focus_polls w title (suc polls) t =
    let (checked, stop) = check_kill_switch w t in
    let again = focus_polls w title polls (look w checked) in
    if stop then (checked, false) else (elim (w.search_windows checked.clock title) [
      | none ↦ again
      | some found ↦ (emit (focused found ∷ []) (look w checked), true)
    ])

unfoldable pub focus_window : World → Text → Thread → Thread × Bool
unfolding focus_polls
focus_window w title t =
    let (checked, stop) = check_kill_switch w t in
    if stop then (checked, false) else focus_polls w title 200 checked

-- `(v * 65535) / extent`, which rounds towards 0.
abbrev pub scaled : ℤ → ℕ → ℤ
scaled (pos n) extent = pos (n * 65535 / extent)
scaled (negsuc n) extent =
    let q = (n + 1) * 65535 / extent in if q == 0 then pos 0 else negsuc (q - 1)

unfoldable pub mouse_click : World → ℤ → ℤ → Thread → Thread × Bool
unfolding guarded
mouse_click w x y t = guarded w (click (scaled x w.screen_w) (scaled y w.screen_h) ∷ []) t

unfoldable pub press_tabs : World → ℕ → Thread → Thread
press_tabs w zero t = t
press_tabs w (suc n) t = press_tabs w n (send_key w vk_tab t).0

unfoldable pub start_block : World → Thread → Thread
unfolding type_syntax press_tabs
start_block w t =
    let entered = (send_key w vk_return (type_syntax b':' t)).0 in
    let level = entered.current_indent_level + 1 in
    press_tabs w level (record entered { current_indent_level = level })

unfoldable pub end_block : World → Thread → Thread
end_block w t =
    let shallower = record t { current_indent_level = t.current_indent_level - 1 } in
    (send_key w vk_back (send_key w vk_return shallower).0).0

-- The `switch` of `motor_loop`.
unfoldable pub perform : World → MotorAction → ℕ → Thread → Thread
perform w a epoch t =
    if a.kind == motor_key_press
    then (send_key w a.vkey t).0
    else if a.kind == motor_key_chord
    then (send_chord w a.modifier a.vkey t).0
    else if a.kind == motor_type_string
    then (type_string w a.text epoch t).0
    else if a.kind == motor_launch_app
    then (launch_app w a.text t).0
    else if a.kind == motor_focus_window
    then (focus_window w a.text t).0
    else if a.kind == motor_mouse_click
    then (mouse_click w a.x a.y t).0
    else if a.kind == motor_start_block
    then start_block w t
    else if a.kind == motor_end_block
    then end_block w t
    else t

-- A round of `motor_loop` that has popped a command.
unfoldable pub motor_round : World → MotorCommand → Thread → Thread
unfolding look abort_sequence
motor_round w cmd t =
    let loaded = look w t in
    let (checked, stop) = check_kill_switch w loaded in
    if not (cmd.epoch == loaded.current_motor_epoch)
    then loaded
    else if stop
    then abort_sequence checked
    else perform w cmd.action cmd.epoch checked

-- Rounds of `motor_loop` on the commands in the order in which they are popped.
unfoldable pub motor_rounds : World → List MotorCommand → Thread → Thread
motor_rounds w [] t = t
motor_rounds w (cmd ∷ cmds) t = motor_rounds w cmds (motor_round w cmd t)

-- Rounds of `motor_loop` on the queue: pop and run, until it is empty.
unfoldable pub motor_loop : World → ℕ → MotorQueue → Thread → MotorQueue × Thread
motor_loop w zero q t = (q, t)
motor_loop w (suc rounds) q t =
    let (q', item) = pop_command q in
    elim item [
      | none ↦ motor_loop w rounds q' t
      | some cmd ↦ motor_loop w rounds q' (motor_round w cmd t)
    ]
