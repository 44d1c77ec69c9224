-- ===== src/Scheduler/Drain.antt =====
-- Draining the spike queue ends (src/core/fpsan_san_scheduler.h).
use engram_core.Prelude.{
  ℕ, zero, suc, ◌+◌, ◌%◌, ◌^◌, ◌≤◌, ◌≡◌, [], ◌∷◌, Bool, true, false, not, ◌&&◌, Option, none, some,
  ltb, ◌==◌, if◌then◌else◌, Bool-cases, inl, inr, arith,
}
use engram_core.Prelude.Float.{Float}
use engram_core.Graph.Arena.{Graph}
use engram_core.Scheduler.{
  MpmcQueue, SpikeEvent, Poster, try_push, try_pop, propagate_one, drain_loop, drain_until,
  live_poster, post_spike, read_clock, max_events,
}
use engram_core.Scheduler.Queue.{try_pop_refines}
use engram_core.Scheduler.Propagate.{
  Sound, Kept, IsSafe, Charged, try_push-Sound, propagate_one-Charged,
}

module _ {F : Float} where
  -- A drain that ends after at most `bound` events with the queue in such a state.
  abbrev pub Drained : ℕ → Option (ℕ × (Graph F × MpmcQueue (SpikeEvent F))) → Type 0
  Drained bound none = true ≡ false
  Drained bound (some (n, (g, q))) = (n ≤ bound) × Sound q

  try_pop-Sound :
      (q : MpmcQueue (SpikeEvent F))
      → Sound q
      → (q' : MpmcQueue (SpikeEvent F)) × (out : Option (SpikeEvent F)) × (try_pop q
          ≡ some (q', out))
        × Sound q'
  try_pop-Sound q ([], h) = (q, none, (try_pop_refines q).0 h, ([], h))
  try_pop-Sound q (x ∷ xs, h) =
      let (q', e, h') = (try_pop_refines q).1 x xs h in (q', some x, e, (xs, h'))

  live_poster-IsSafe : IsSafe (live_poster F)
  unfolding live_poster post_spike
  live_poster-IsSafe cid v q h = ignored (try_push ev q) (try_push-Sound ev q h)
    where
      ev : SpikeEvent F
      ev = record { src_cid = cid; voltage = F.lit 1 1; hop = 0; deadline_ns = 0 }

      ignored :
          (o : Option (MpmcQueue (SpikeEvent F) × Bool))
          → ((q' : MpmcQueue (SpikeEvent F)) × (ok : Bool) × (o ≡ some (q', ok)) × Sound q')
          → Kept (elim o [ none ↦ none | some (q', ok) ↦ some q' ])
      ignored o (q', ok, e, k) = rw e k

  drain_loop-Drained :
      (poster : Poster F) (enabled : Bool) (clock : Option (ℕ → ℕ)) (end_ns rest processed now : ℕ)
      (g : Graph F) (q : MpmcQueue (SpikeEvent F))
      → IsSafe poster
      → Sound q
      → Drained
          (processed + rest)
          (drain_loop poster enabled clock end_ns rest processed now (g, q))
  unfolding drain_loop
  drain_loop-Drained poster enabled clock end_ns zero processed now g q safe h = (omega arith, h)
  drain_loop-Drained poster enabled clock end_ns (suc rest) processed now g q safe h =
      opened (try_pop q) (try_pop-Sound q h) (λ time s k.
        drain_loop-Drained poster enabled clock end_ns rest (processed + 1) time s.0 s.1 safe k)
    where
      Rest : Type 0
      Rest =
          (time : ℕ) (s : Graph F × MpmcQueue (SpikeEvent F))
          → Sound s.1
          → Drained (processed + 1 + rest)
              (drain_loop poster enabled clock end_ns rest (processed + 1) time s)

      widen :
          (o : Option (ℕ × (Graph F × MpmcQueue (SpikeEvent F))))
          → Drained (processed + 1 + rest) o
          → Drained (processed + suc rest) o
      widen none d = d
      widen (some (n, s)) d = (omega (arith, d.0), d.1)

      later :
          (over : Bool) (time : ℕ) (s : Graph F × MpmcQueue (SpikeEvent F))
          → Rest
          → Sound s.1
          → Drained (processed + suc rest) (
              if over
              then some (processed + 1, s)
              else drain_loop poster enabled clock end_ns rest (processed + 1) time s)
      later true time s go k = (omega arith, k)
      later false time s go k = widen _ (go time s k)

      spread :
          (o : Option (Graph F × MpmcQueue (SpikeEvent F)))
          → Rest
          → Charged o
          → Drained (processed + suc rest) (elim o [
            | none ↦ none
            | some s' ↦
                let (time, over) = read_clock clock end_ns (processed + 1) now in
                if over
                then some (processed + 1, s')
                else drain_loop poster enabled clock end_ns rest (processed + 1) time s'
          ])
      spread none go c = c
      spread (some s') go c =
          later (read_clock clock end_ns (processed + 1) now).1
            (read_clock clock end_ns (processed + 1) now).0 s' go c

      back :
          (o : Option (MpmcQueue (SpikeEvent F) × Bool))
          → ((q'' : MpmcQueue (SpikeEvent F)) × (ok : Bool) × (o ≡ some (q'', ok)) × Sound q'')
          → Drained
              (processed + suc rest)
              (elim o [ none ↦ none | some (q'', ok) ↦ some (processed, (g, q'')) ])
      back o (q'', ok, e, k) = rw e (omega arith, k)

      enabled_or_not :
          (b : Bool) (ev : SpikeEvent F) (q' : MpmcQueue (SpikeEvent F))
          → Sound q'
          → Charged (if b then propagate_one poster ev (g, q') else some (g, q'))
      enabled_or_not true ev q' k = propagate_one-Charged poster ev (g, q') safe k
      enabled_or_not false ev q' k = k

      after :
          (q' : MpmcQueue (SpikeEvent F)) (out : Option (SpikeEvent F))
          → Sound q'
          → Rest
          → Drained (processed + suc rest) (elim out [
            | none ↦ some (processed, (g, q'))
            | some ev ↦
                if not (ev.deadline_ns == 0) && ltb now ev.deadline_ns
                then elim (try_push ev q') [
                  | none ↦ none
                  | some (q'', ok) ↦ some (processed, (g, q''))
                ]
                else elim (if enabled then propagate_one poster ev (g, q') else some (g, q')) [
                  | none ↦ none
                  | some s' ↦
                      let (time, over) = read_clock clock end_ns (processed + 1) now in
                      if over
                      then some (processed + 1, s')
                      else drain_loop poster enabled clock end_ns rest (processed + 1) time s'
                ]
          ])
      after q' none k go = (omega arith, k)
      after q' (some ev) k go =
          elim (Bool-cases (not (ev.deadline_ns == 0) && ltb now ev.deadline_ns)) [
            | inl early ↦ rw early (back (try_push ev q') (try_push-Sound ev q' k))
            | inr due ↦ rw due (spread _ go (enabled_or_not enabled ev q' k))
          ]

      opened :
          (o : Option (MpmcQueue (SpikeEvent F) × Option (SpikeEvent F)))
          → ((q' : MpmcQueue (SpikeEvent F)) × (out : Option (SpikeEvent F)) × (o ≡ some (q', out))
              × Sound q')
          → Rest
          → Drained (processed + suc rest) (elim o [
            | none ↦ none
            | some (q', none) ↦ some (processed, (g, q'))
            | some (q', some ev) ↦
                if not (ev.deadline_ns == 0) && ltb now ev.deadline_ns
                then elim (try_push ev q') [
                  | none ↦ none
                  | some (q'', ok) ↦ some (processed, (g, q''))
                ]
                else elim (if enabled then propagate_one poster ev (g, q') else some (g, q')) [
                  | none ↦ none
                  | some s' ↦
                      let (time, over) = read_clock clock end_ns (processed + 1) now in
                      if over
                      then some (processed + 1, s')
                      else drain_loop poster enabled clock end_ns rest (processed + 1) time s'
                ]
          ])
      opened o (q', out, e, k) go = rw e (after q' out k go)

  -- With a poster that keeps the queue sound, and so with the daemon's, draining a sound queue ends: it
  -- processes at most as many events as the budget allows, whatever the propagation posts back, and
  -- leaves a sound queue.
  pub drain_until-Drained :
      (poster : Poster F) (enabled : Bool) (clock : Option (ℕ → ℕ)) (now budget : ℕ) (g : Graph F)
      (q : MpmcQueue (SpikeEvent F))
      → IsSafe poster
      → Sound q
      → Drained (max_events budget) (drain_until poster enabled clock now budget (g, q))
        × Drained (max_events budget) (drain_until (live_poster F) enabled clock now budget (g, q))
  unfolding drain_until
  drain_until-Drained poster enabled clock now budget g q safe h = (
    exact _ (
        drain_loop-Drained poster enabled clock ((now + budget) % 2 ^ 64) (max_events budget) 0 now
          g q safe h),
    exact _ (
        drain_loop-Drained (live_poster F) enabled clock ((now + budget) % 2 ^ 64)
          (max_events budget) 0 now g q live_poster-IsSafe h),
  )
    where
      exact :
          (o : Option (ℕ × (Graph F × MpmcQueue (SpikeEvent F))))
          → Drained (0 + max_events budget) o
          → Drained (max_events budget) o
      exact none d = d
      exact (some (n, s)) d = (omega (arith, d.0), d.1)
