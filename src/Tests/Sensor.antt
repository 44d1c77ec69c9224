-- ===== src/Tests/Sensor.antt =====
-- SensorBus (src/core/sensor_bus.h) at concrete inputs.
use engram_core.Prelude.{ℕ, ◌≡◌, ◌≢◌, refl, [], ◌∷◌, ◌++◌, arith, ◌+◌, if◌then◌else◌, ◌==◌}
use engram_core.Sensor.{Bus, write_slot, publish}
use engram_core.Sensor.Queue.{contents}
use engram_core.Sensor.Spsc.{
  System, Producer, Consumer, Step, Reach, boot, fifo_under_interleaving, no_data_race,
}

abbrev memory : ℕ → ℕ
memory i = i + 7

-- Two items round the end of three slots.
abbrev wrapped : Bus ℕ
wrapped = record { buffer = memory; head = 1; tail = 2 }

abbrev one_sent : System ℕ
one_sent = record {
  bus = record { buffer = λ i. if i == 0 then 4 else memory i; head = 1; tail = 0 };
  producer = Producer.resting;
  consumer = Consumer.resting;
  sent = 4 ∷ [];
  received = [];
}

Reach-one : Reach 3 (boot 3 memory) one_sent
unfolding write_slot publish
Reach-one =
    Reach.next
      (Reach.next (Reach.next Reach.here (Step.push_check 4 refl (omega arith)))
        (Step.push_write 4 refl))
      (Step.push_publish 4 refl)

abbrev both_busy : System ℕ
both_busy = record one_sent { producer = Producer.checked 9; consumer = Consumer.checked }

Reach-both : Reach 3 (boot 3 memory) both_busy
Reach-both =
    Reach.next (Reach.next Reach-one (Step.push_check 9 refl (omega arith)))
      (Step.pop_check refl (omega arith))

fifo_under_interleaving_example : one_sent.sent ≡ one_sent.received ++ contents 3 one_sent.bus
fifo_under_interleaving_example = fifo_under_interleaving 3 memory (omega arith) Reach-one

no_data_race_example : both_busy.bus.head ≢ both_busy.bus.tail
no_data_race_example = no_data_race 3 memory 9 (omega arith) Reach-both refl refl
