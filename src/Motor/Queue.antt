-- ===== src/Motor/Queue.antt =====
-- MotorQueue (src/core/fpsan_motor.h) is the ring of SensorBus (src/core/sensor_bus.h) with 256 slots and the
-- names of its two indices exchanged; so it holds a bounded queue, which `motor_loop` runs in order.
use engram_core.Prelude.{
  ℕ, zero, suc, ◌≤◌, ◌%◌, ◌+◌, ◌≡◌, refl, ap, subst, List, [], ◌∷◌, ◌==◌, Bool-cases, inl, inr,
  length, arith,
}
use engram_core.Sensor.{Bus, push, pop}
use engram_core.Sensor.Queue.{
  IsValid, contents, queue_push, queue_pop, push_refines, pop_refines, push-IsValid, pop-IsValid,
}
use engram_core.Motor.{MotorCommand, MotorQueue, push_command, pop_command, motor_queue_size}
use engram_core.Motor.Thread.{World, Thread, motor_loop, motor_round, motor_rounds}

abbrev pub as_bus : MotorQueue → Bus MotorCommand
as_bus q = record { buffer = q.buffer; head = q.tail; tail = q.head }

-- The commands that wait, oldest first.
abbrev pub waiting : MotorQueue → List MotorCommand
waiting q = contents 256 (as_bus q)

-- Both indices are within the array.
abbrev pub IsQueue : MotorQueue → Type 0
IsQueue q = IsValid 256 (as_bus q)

push_command-push :
    (cmd : MotorCommand) (q : MotorQueue)
    → push 256 (as_bus q) cmd ≡ (as_bus (push_command cmd q).0, (push_command cmd q).1)
unfolding push push_command
push_command-push cmd q = elim (Bool-cases ((q.tail + 1) % motor_queue_size == q.head)) [
  | inl full ↦ rw full
  | inr room ↦ rw room
]

pop_command-pop :
    (q : MotorQueue) → pop 256 (as_bus q) ≡ (as_bus (pop_command q).0, (pop_command q).1)
unfolding pop pop_command
pop_command-pop q = elim (Bool-cases (q.head == q.tail)) [
  | inl empty ↦ rw empty
  | inr more ↦ rw more
]

-- A push appends the command while fewer than 255 wait, and else answers false and changes nothing; a
-- pop takes the oldest; both keep the indices within the array, wherever they have wrapped to.
pub motor_queue_refines :
    (cmd : MotorCommand) (q : MotorQueue)
    → IsQueue q
    → ((waiting (push_command cmd q).0, (push_command cmd q).1) ≡ queue_push 256 (waiting q) cmd)
      × ((waiting (pop_command q).0, (pop_command q).1) ≡ queue_pop 256 (waiting q))
      × IsQueue (push_command cmd q).0
      × IsQueue (pop_command q).0
motor_queue_refines cmd q v =
    let pushed = push_command-push cmd q in
    let popped = pop_command-pop q in
    (
      subst (λ p. (contents 256 p.0, p.1) ≡ queue_push 256 (waiting q) cmd) pushed
          (push_refines 256 cmd v),
      subst (λ p. (contents 256 p.0, p.1) ≡ queue_pop 256 (waiting q)) popped (pop_refines 256 v),
      subst (λ p. IsValid 256 p.0) pushed (push-IsValid 256 cmd v),
      subst (λ p. IsValid 256 p.0) popped (pop-IsValid 256 v),
    )

pop_lem :
    (q : MotorQueue)
    → IsQueue q
    → ((waiting (pop_command q).0, (pop_command q).1) ≡ queue_pop 256 (waiting q))
      × IsQueue (pop_command q).0
pop_lem q v = (
  subst (λ p. (contents 256 p.0, p.1) ≡ queue_pop 256 (waiting q)) (pop_command-pop q)
      (pop_refines 256 v),
  subst (λ p. IsValid 256 p.0) (pop_command-pop q) (pop-IsValid 256 v),
)

motor_loop_lem :
    (w : World) (rounds : ℕ) (q : MotorQueue) (t : Thread) (cmds : List MotorCommand)
    → IsQueue q
    → waiting q ≡ cmds
    → length cmds ≤ rounds
    → ((motor_loop w rounds q t).1 ≡ motor_rounds w cmds t)
      × (waiting (motor_loop w rounds q t).0 ≡ [])
unfolding motor_loop motor_rounds queue_pop
motor_loop_lem w zero q t [] v e h = (refl, e)
motor_loop_lem w zero q t (cmd ∷ cmds) v e h = absurd (omega arith)
motor_loop_lem w (suc rounds) q t [] v e h =
    let popped = pop_lem q v in
    let both = rw e at popped.0 in
    rw (ap (λ p. p.1) both, motor_loop)
      (motor_loop_lem w rounds (pop_command q).0 t [] popped.1 (ap (λ p. p.0) both) (omega arith))
motor_loop_lem w (suc rounds) q t (cmd ∷ cmds) v e h =
    let popped = pop_lem q v in
    let both = rw e at popped.0 in
    rw (ap (λ p. p.1) both, motor_loop)
      (motor_loop_lem w rounds (pop_command q).0 (motor_round w cmd t) cmds popped.1
        (ap (λ p. p.0) both) (omega arith))

-- With no push meanwhile, `motor_loop` runs the waiting commands in the order in which they were
-- pushed and leaves the queue empty, if it has a round for each.
pub motor_loop-motor_rounds :
    (w : World) (rounds : ℕ) (q : MotorQueue) (t : Thread)
    → IsQueue q
    → length (waiting q) ≤ rounds
    → ((motor_loop w rounds q t).1 ≡ motor_rounds w (waiting q) t)
      × (waiting (motor_loop w rounds q t).0 ≡ [])
motor_loop-motor_rounds w rounds q t v h = motor_loop_lem w rounds q t (waiting q) v refl h
