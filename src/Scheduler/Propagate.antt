-- ===== src/Scheduler/Propagate.antt =====
-- What a spike does to the graph and the queue when it propagates (src/core/fpsan_san_scheduler.h).
use engram_core.Prelude.{
  ℕ, ◌≡◌, List, [], ◌∷◌, ◌++◌, Bool, true, false, not, ◌||◌, Option, none, some, ltb, leb,
  if◌then◌else◌, length, Bool-cases, inl, inr, arith, in_range,
}
use engram_core.Prelude.Float.{Float}
use engram_core.Graph.Node.{Edge}
use engram_core.Graph.Arena.{Graph, add_voltage_to}
use engram_core.Scheduler.{
  MpmcQueue, SpikeEvent, Poster, queue_capacity, try_push, charge, propagate_edges, propagate_one,
  max_hop,
}
use engram_core.Scheduler.Queue.{Holds, try_push_refines}

module _ {F : Float} where
  -- The queue is in a state that some list of events describes.
  abbrev pub Sound : MpmcQueue (SpikeEvent F) → Type 0
  Sound q = (xs : List (SpikeEvent F)) × Holds q xs

  -- A queue call that ends in such a state.
  abbrev pub Kept : Option (MpmcQueue (SpikeEvent F)) → Type 0
  Kept none = true ≡ false
  Kept (some q) = Sound q

  abbrev pub IsSafe : Poster F → Type 0
  IsSafe poster =
      (cid : ℕ) (v : F.Carrier) (q : MpmcQueue (SpikeEvent F)) → Sound q → Kept (poster cid v q)

  abbrev pub Charged : Option (Graph F × MpmcQueue (SpikeEvent F)) → Type 0
  Charged none = true ≡ false
  Charged (some (g, q)) = Sound q

  pub try_push-Sound :
      (ev : SpikeEvent F) (q : MpmcQueue (SpikeEvent F))
      → Sound q
      → (q' : MpmcQueue (SpikeEvent F)) × (ok : Bool) × (try_push ev q ≡ some (q', ok)) × Sound q'
  try_push-Sound ev q (xs, h) = elim (Bool-cases (ltb (length xs) queue_capacity)) [
    | inl room ↦
        let (q', e, h') = (try_push_refines ev q xs h).0 (ground arith) in
        (q', true, e, (xs ++ (ev ∷ []), h'))
    | inr full ↦
        let few = h.few in (q, false, (try_push_refines ev q xs h).1 (ground arith), (xs, h))
  ]

  pub charge-Charged :
      (poster : Poster F) (t : ℕ) (dv : F.Carrier) (g : Graph F) (q : MpmcQueue (SpikeEvent F))
      → IsSafe poster
      → Sound q
      → Charged (charge poster t dv (g, q))
  unfolding charge
  charge-Charged poster t dv g q safe h = posted (add_voltage_to t dv g).1
    where
      ended :
          (o : Option (MpmcQueue (SpikeEvent F)))
          → Kept o
          → Charged (elim o [ none ↦ none | some q' ↦ some ((add_voltage_to t dv g).0, q') ])
      ended none k = k
      ended (some q') k = k

      posted :
          (post : Option F.Carrier)
          → Charged (elim post [
            | none ↦ some ((add_voltage_to t dv g).0, q)
            | some v ↦ elim (poster t v q) [
              | none ↦ none
              | some q' ↦ some ((add_voltage_to t dv g).0, q')
            ]
          ])
      posted none = h
      posted (some v) = ended (poster t v q) (safe t v q h)

  propagate_edges-Charged :
      (poster : Poster F) (v : F.Carrier) (es : List (Edge F))
      (s : Graph F × MpmcQueue (SpikeEvent F))
      → IsSafe poster
      → Sound s.1
      → Charged (propagate_edges poster v es s)
  unfolding propagate_edges
  propagate_edges-Charged poster v [] s safe h = h
  propagate_edges-Charged poster v (e ∷ es) s safe h =
      step (in_range s.0.node_count e.target)
        (λ s' h'. propagate_edges-Charged poster v es s' safe h')
    where
      dv : F.Carrier
      dv = F.mul (F.mul v e.weight) (F.lit 10 100)

      Rest : Type 0
      Rest =
          (s' : Graph F × MpmcQueue (SpikeEvent F))
          → Sound s'.1
          → Charged (propagate_edges poster v es s')

      ended :
          (o : Option (Graph F × MpmcQueue (SpikeEvent F)))
          → Rest
          → Charged o
          → Charged (elim o [ none ↦ none | some s' ↦ propagate_edges poster v es s' ])
      ended none rest k = k
      ended (some s') rest k = rest s' k

      maybe : (t : ℕ) (b : Bool) → Charged (if b then some s else charge poster t dv s)
      maybe t false = charge-Charged poster t dv s.0 s.1 safe h
      maybe t true = h

      step :
          (r : Option ℕ)
          → Rest
          → Charged (elim r [
            | none ↦ propagate_edges poster v es s
            | some t ↦ elim (if F.leb dv (F.lit 0 1) then some s else charge poster t dv s) [
              | none ↦ none
              | some s' ↦ propagate_edges poster v es s'
            ]
          ])
      step none rest = rest s h
      step (some t) rest = ended _ rest (maybe t (F.leb dv (F.lit 0 1)))

  pub propagate_one-Charged :
      (poster : Poster F) (ev : SpikeEvent F) (s : Graph F × MpmcQueue (SpikeEvent F))
      → IsSafe poster
      → Sound s.1
      → Charged (propagate_one poster ev s)
  unfolding propagate_one
  propagate_one-Charged poster ev s safe h =
      elim (Bool-cases (leb max_hop ev.hop || not (ltb ev.src_cid s.0.node_count))) [
        | inl skip ↦ rw skip h
        | inr go ↦ rw go (
            propagate_edges-Charged poster ev.voltage (s.0.cortex_memory ev.src_cid).edges s safe h)
      ]
