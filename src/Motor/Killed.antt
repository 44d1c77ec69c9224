-- ===== src/Motor/Killed.antt =====
-- The kill switch and the epochs of the motor thread (src/core/fpsan_motor.h): what no longer runs.
use engram_core.Prelude.{
  ℕ, zero, suc, ◌+◌, ◌≤◌, ◌<◌, ◌%◌, ◌≡◌, ◌∙◌, refl, List, [], ◌∷◌, true, false, ◌==◌, if◌then◌else◌,
  All, length, Bool-cases, arith, inl, inr,
}
use engram_core.Motor.{MotorCommand}
use engram_core.Motor.Thread.{
  World, Thread, look, check_kill_switch, motor_round, motor_rounds, epochs,
}

-- The main thread does not reset the kill switch.
abbrev pub NoReset : World → Type 0
NoReset w = (c : ℕ) → w.resets c ≡ false

-- Nothing is sent from `t` to `t'`, and the kill switch stays on.
abbrev pub Silent : Thread → Thread → Type 0
Silent t t' = (t'.sent ≡ t.sent) × (t'.killed ≡ true)

pub check_kill_switch_killed :
    (w : World) (t : Thread)
    → NoReset w
    → t.killed ≡ true
    → ((check_kill_switch w t).1 ≡ true) × Silent t (check_kill_switch w t).0
unfolding check_kill_switch look
check_kill_switch_killed w t quiet on = elim (Bool-cases (w.esc t.clock)) [
  | inl held ↦ rw (held, quiet t.clock, on) (refl, (refl, refl))
  | inr free ↦ rw (free, quiet t.clock) (on, (refl, on))
]

pub look_killed : (w : World) (t : Thread) → NoReset w → t.killed ≡ true → (look w t).killed ≡ true
unfolding look
look_killed w t quiet on = rw (quiet t.clock) on

-- A check sends nothing, and where it stops the kill switch is on.
pub check_kill_switch_lem :
    (w : World) (t : Thread)
    → ((check_kill_switch w t).0.sent ≡ t.sent)
      × ((check_kill_switch w t).1 ≡ (check_kill_switch w t).0.killed)
unfolding check_kill_switch look
check_kill_switch_lem w t = elim (Bool-cases (w.esc t.clock)) [
  | inr free ↦ rw free (refl, refl)
  | inl held ↦ elim (Bool-cases (if w.resets t.clock then false else t.killed)) [
    | inl on ↦ rw (held, on) (refl, refl)
    | inr off ↦ rw (held, off) (refl, refl)
  ]
]

motor_round_killed :
    (w : World) (cmd : MotorCommand) (t : Thread)
    → NoReset w
    → t.killed ≡ true
    → Silent t (motor_round w cmd t)
unfolding motor_round
motor_round_killed w cmd t quiet on =
    let loaded = look w t in
    let still = look_killed w t quiet on in
    let check = check_kill_switch_killed w loaded quiet still in
    elim (Bool-cases (cmd.epoch == loaded.current_motor_epoch)) [
      | inl current ↦ rw (current, check.0) (unfold look in check.1)
      | inr stale ↦ rw stale (unfold look in refl, still)
    ]

-- Once the kill switch is on, no command of any row sends anything and the switch stays on, as long as
-- the main thread does not reset it meanwhile.
pub killed-Silent :
    (w : World) (cmds : List MotorCommand) (t : Thread)
    → NoReset w
    → t.killed ≡ true
    → Silent t (motor_rounds w cmds t)
unfolding motor_rounds
killed-Silent w [] t quiet on = (refl, on)
killed-Silent w (cmd ∷ cmds) t quiet on =
    let one = motor_round_killed w cmd t quiet on in
    let rest = killed-Silent w cmds (motor_round w cmd t) quiet one.1 in (rest.0 ∙ one.0, rest.1)

-- How often the main thread aborts during the next `n` looks from the clock `c` on.
abbrev pub aborts_from : World → ℕ → ℕ → ℕ
aborts_from w c zero = 0
aborts_from w c (suc n) = w.aborts c + aborts_from w (c + 1) n

-- A thread that differs from `t` in the clock and the epoch alone.
pub record Idle (t t' : Thread) : Type 0 where
  pub same_sent : t'.sent ≡ t.sent
  pub same_killed : t'.killed ≡ t.killed
  pub same_indent : t'.current_indent_level ≡ t.current_indent_level
  pub same_focus_aborts : t'.focus_aborts ≡ t.focus_aborts

motor_round_stale :
    (w : World) (cmd : MotorCommand) (t : Thread)
    → cmd.epoch < (look w t).current_motor_epoch
    → motor_round w cmd t ≡ look w t
unfolding motor_round
motor_round_stale w cmd t old =
    let stale : (cmd.epoch == (look w t).current_motor_epoch) ≡ false = ground arith in rw stale

older :
    (cmds : List MotorCommand) (a b : ℕ)
    → a ≤ b
    → All (λ cmd. cmd.epoch < a) cmds
    → All (λ cmd. cmd.epoch < b) cmds
older [] a b h old = tt
older (cmd ∷ cmds) a b h old = (omega arith, older cmds a b h old.1)

-- Commands of an epoch that has passed are discarded: they send nothing and change neither the kill
-- switch nor the indentation, as long as the epoch does not wrap around and the main thread does not
-- reset the kill switch.
pub stale_discarded :
    (w : World) (cmds : List MotorCommand) (t : Thread)
    → NoReset w
    → All (λ cmd. cmd.epoch < t.current_motor_epoch) cmds
    → t.current_motor_epoch + aborts_from w t.clock (length cmds) < epochs
    → Idle t (motor_rounds w cmds t)
unfolding motor_rounds look
stale_discarded w [] t quiet old no_wrap = record {
  same_sent = refl;
  same_killed = refl;
  same_indent = refl;
  same_focus_aborts = refl;
}
stale_discarded w (cmd ∷ cmds) t quiet old no_wrap =
    let passed : (t.current_motor_epoch + w.aborts t.clock) % epochs
        ≡ t.current_motor_epoch + w.aborts t.clock =
      omega arith in
    let rest =
      stale_discarded w cmds (look w t) quiet
        (older cmds t.current_motor_epoch (look w t).current_motor_epoch (omega arith) old.1)
        (omega arith) in
    rw (motor_round_stale w cmd t (omega arith)) (record {
      same_sent = rest.same_sent;
      same_killed = rest.same_killed ∙ (rw (quiet t.clock) refl);
      same_indent = rest.same_indent;
      same_focus_aborts = rest.same_focus_aborts;
    })
