-- ===== src/Tests/Scheduler.antt =====
-- The spike queue and its scheduler (src/core/fpsan_san_scheduler.h) at concrete inputs.
use engram_core.Prelude.{◌≡◌, ◌<◌, [], ◌∷◌, ◌++◌, true, false, none, some, pos, length}
use engram_core.Prelude.Float.{thousandths}
use engram_core.Scheduler.{
  MpmcQueue, SpikeEvent, empty_queue, try_push, queue_capacity, drain_until, live_poster,
  max_events,
}
use engram_core.Scheduler.Queue.{Holds, empty_queue-Holds, try_push_refines}
use engram_core.Scheduler.Drain.{Drained, drain_until-Drained}
use engram_core.Tests.Activity.{linked_graph}

abbrev spike : SpikeEvent thousandths
spike = record { src_cid = 1; voltage = pos 1000; hop = 0; deadline_ns = 0 }

abbrev idle : MpmcQueue (SpikeEvent thousandths)
idle = empty_queue spike

try_push_refines_example :
    (length {A = SpikeEvent thousandths} [] < queue_capacity
      → (q' : MpmcQueue (SpikeEvent thousandths)) × (try_push spike idle ≡ some (q', true))
        × Holds q' ([] ++ (spike ∷ [])))
    × (length {A = SpikeEvent thousandths} [] ≡ queue_capacity
        → try_push spike idle ≡ some (idle, false))
try_push_refines_example = try_push_refines spike idle [] (empty_queue-Holds spike)

drain_until-Drained_example :
    Drained
      (max_events 250000)
      (drain_until (λ cid v q. some q) true none 5 250000 (linked_graph, idle))
    × Drained
        (max_events 250000)
        (drain_until (live_poster thousandths) true none 5 250000 (linked_graph, idle))
drain_until-Drained_example =
    drain_until-Drained (λ cid v q. some q) true none 5 250000 linked_graph idle (λ cid v q h. h)
      ([], empty_queue-Holds spike)
