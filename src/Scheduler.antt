-- ===== src/Scheduler.antt =====
-- The spike queue and its scheduler (src/core/fpsan_san_scheduler.h), as one thread runs them: each
-- compare-and-swap succeeds, and a loop round that would start over with nothing changed never ends.
use engram_core.Prelude.{
  ℕ, zero, suc, ◌+◌, ◌-◌, ◌/◌, ◌%◌, ◌^◌, List, [], ◌∷◌, Bool, true, false, ◌&&◌, ◌||◌, not, Option,
  none, some, ltb, leb, ◌==◌, if◌then◌else◌, update, in_range, ℤ, pos,
}
use engram_core.Prelude.Float.{Float}
use engram_core.Graph.Node.{Node, Edge}
use engram_core.Graph.Arena.{Graph, add_voltage_to}
pub mod Queue
pub mod Propagate
pub mod Drain

-- `kQueueCapacity`, a power of two, which the constructor keeps.
abbrev pub queue_capacity : ℕ
queue_capacity = 1048576

-- `seq` and `cells` are the two fields of each cell.
pub record MpmcQueue (E : Type 0) : Type 0 where
  pub seq : ℕ → ℕ
  pub cells : ℕ → E
  pub enqueue_pos : ℕ
  pub dequeue_pos : ℕ

-- `(int32_t)seq - (int32_t)pos`, on 32 bits: below 2 ^ 31 it is not negative. An overflow, which C++
-- leaves undefined, wraps.
abbrev pub diff : ℕ → ℕ → ℕ
diff seq position = (seq + 2 ^ 32 - position) % 2 ^ 32

module _ {E : Type 0} where
  -- `capacity_` cells, each with its index as sequence number.
  unfoldable pub empty_queue : E → MpmcQueue E
  empty_queue blank = record { seq = λ i. i; cells = λ i. blank; enqueue_pos = 0; dequeue_pos = 0 }

  -- `try_push`: none where the loop never ends.
  unfoldable pub try_push : E → MpmcQueue E → Option (MpmcQueue E × Bool)
  try_push ev q =
      let c = q.enqueue_pos % queue_capacity in
      let d = diff (q.seq c) q.enqueue_pos in
      if d == 0
      then some (
        record q {
          enqueue_pos = (q.enqueue_pos + 1) % 2 ^ 32;
          cells = update q.cells c ev;
          seq = update q.seq c ((q.enqueue_pos + 1) % 2 ^ 32);
        },
        true,
      )
      else if leb (2 ^ 31) d
      then some (q, false)
      else none

  unfoldable pub try_pop : MpmcQueue E → Option (MpmcQueue E × Option E)
  try_pop q =
      let c = q.dequeue_pos % queue_capacity in
      let d = diff (q.seq c) ((q.dequeue_pos + 1) % 2 ^ 32) in
      if d == 0
      then some (
        record q {
          dequeue_pos = (q.dequeue_pos + 1) % 2 ^ 32;
          seq = update q.seq c ((q.dequeue_pos + queue_capacity) % 2 ^ 32);
        },
        some (q.cells c),
      )
      else if leb (2 ^ 31) d
      then some (q, none)
      else none

pub record SpikeEvent (F : Float) : Type 0 where
  pub src_cid : ℕ
  pub voltage : F.Carrier
  pub hop : ℕ
  pub deadline_ns : ℕ

-- `kMaxHop`.
abbrev pub max_hop : ℕ
max_hop = 3

-- A queue call that may not end, and what `SanPostFn` does to the queue.
abbrev pub Poster : Float → Type 0
Poster F = ℕ → F.Carrier → MpmcQueue (SpikeEvent F) → Option (MpmcQueue (SpikeEvent F))

-- `max_events`; the loop processes one event even where the sum has wrapped to 0.
abbrev pub max_events : ℕ → ℕ
max_events budget = let n = (budget / 1000 % 2 ^ 32 + 32) % 2 ^ 32 in if n == 0 then 1 else n

-- Every eighth event a clock that is not the default is read: the time, and whether it is up.
unfoldable pub read_clock : Option (ℕ → ℕ) → ℕ → ℕ → ℕ → ℕ × Bool
read_clock none end_ns processed now = (now, false)
read_clock (some read) end_ns processed now =
    if processed % 8 == 0 then (read processed, leb end_ns (read processed)) else (now, false)

module _ {F : Float} where
  unfoldable pub post_spike :
      ℕ → F.Carrier → ℕ → ℕ → MpmcQueue (SpikeEvent F) → Option (MpmcQueue (SpikeEvent F) × Bool)
  post_spike cid v deadline hops q =
      try_push (record { src_cid = cid; voltage = v; hop = hops; deadline_ns = deadline }) q

module _ (F : Float) where
  -- The poster that the daemon binds: a spike of voltage 1, whose result is ignored.
  unfoldable pub live_poster : Poster F
  unfolding post_spike
  live_poster cid v q = elim (post_spike cid (F.lit 1 1) 0 0 q) [
    | none ↦ none
    | some (q', ok) ↦ some q'
  ]

module _ {F : Float} where
  -- `add_voltage_to` on the graph, with the post that it may make.
  unfoldable pub charge :
      Poster F
      → ℕ
      → F.Carrier
      → Graph F × MpmcQueue (SpikeEvent F)
      → Option (Graph F × MpmcQueue (SpikeEvent F))
  unfolding add_voltage_to
  charge poster t dv (g, q) =
      let (g', post) = add_voltage_to t dv g in
      elim post [
        | none ↦ some (g', q)
        | some v ↦ elim (poster t v q) [ none ↦ none | some q' ↦ some (g', q') ]
      ]

  -- The loop over the edges; a voltage that is not positive is passed over.
  unfoldable pub propagate_edges :
      Poster F
      → F.Carrier
      → List (Edge F)
      → Graph F × MpmcQueue (SpikeEvent F)
      → Option (Graph F × MpmcQueue (SpikeEvent F))
  unfolding charge
  propagate_edges poster v [] s = some s
  propagate_edges poster v (e ∷ es) s =
      let dv = F.mul (F.mul v e.weight) (F.lit 10 100) in
      elim (in_range s.0.node_count e.target) [
        | none ↦ propagate_edges poster v es s
        | some t ↦ elim (if F.leb dv (F.lit 0 1) then some s else charge poster t dv s) [
          | none ↦ none
          | some s' ↦ propagate_edges poster v es s'
        ]
      ]

  unfoldable pub propagate_one :
      Poster F
      → SpikeEvent F
      → Graph F × MpmcQueue (SpikeEvent F)
      → Option (Graph F × MpmcQueue (SpikeEvent F))
  unfolding propagate_edges
  propagate_one poster ev s =
      if leb max_hop ev.hop || not (ltb ev.src_cid s.0.node_count)
      then some s
      else propagate_edges poster ev.voltage (s.0.cortex_memory ev.src_cid).edges s

  -- The loop of `drain_until`, with the events that may still be processed, the events processed and
  -- the time last read. The clock is none where it is the default, else its reading after each event.
  unfoldable pub drain_loop :
      Poster F
      → Bool
      → Option (ℕ → ℕ)
      → ℕ
      → ℕ
      → ℕ
      → ℕ
      → Graph F × MpmcQueue (SpikeEvent F)
      → Option (ℕ × (Graph F × MpmcQueue (SpikeEvent F)))
  unfolding propagate_one read_clock
  drain_loop poster enabled clock end_ns zero processed now s = some (processed, s)
  drain_loop poster enabled clock end_ns (suc rest) processed now (g, q) = elim (try_pop q) [
    | none ↦ none
    | some (q', none) ↦ some (processed, (g, q'))
    | some (q', some ev) ↦
        if not (ev.deadline_ns == 0) && ltb now ev.deadline_ns
        then elim (try_push ev q') [ none ↦ none | some (q'', ok) ↦ some (processed, (g, q'')) ]
        else elim (if enabled then propagate_one poster ev (g, q') else some (g, q')) [
          | none ↦ none
          | some s' ↦
              let (time, over) = read_clock clock end_ns (processed + 1) now in
              let more = drain_loop poster enabled clock end_ns rest (processed + 1) time s' in
              if over then some (processed + 1, s') else more
        ]
  ]

  -- `drain_until` on a bound graph: the events processed, and what is left.
  unfoldable pub drain_until :
      Poster F
      → Bool
      → Option (ℕ → ℕ)
      → ℕ
      → ℕ
      → Graph F × MpmcQueue (SpikeEvent F)
      → Option (ℕ × (Graph F × MpmcQueue (SpikeEvent F)))
  unfolding drain_loop
  drain_until poster enabled clock now budget s =
      drain_loop poster enabled clock ((now + budget) % 2 ^ 64) (max_events budget) 0 now s
