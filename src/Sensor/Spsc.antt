-- ===== src/Sensor/Spsc.antt =====
-- SensorBus of src/core/sensor_bus.h with its two threads interleaved. Each atomic load and store of
-- `push` and `pop` is a step; each thread alone writes its own index, so the loads of that index
-- are joined to the test. `sent` and `received` record what was published and what was taken.
use engram_core.Prelude.{
  ap₂, subst, sym, update_self, update_ne, ℕ, ◌+◌, ◌%◌, ◌<◌, ◌≡◌, ◌≢◌, refl, ap, ◌∙◌, List, [], ◌∷◌,
  ◌++◌, append_assoc, arith,
}
use engram_core.Sensor.{Bus, write_slot, publish, release}
use engram_core.Sensor.Window.{next_slot}
use engram_core.Sensor.Queue.{
  IsValid, contents, contents-write_slot, contents-publish, contents-release, contents-empty,
  publish-IsValid, release-IsValid,
}

pub data Producer {ℓ} (T : Type ℓ) : Type ℓ where
  resting : Producer T
  checked : T → Producer T
  written : T → Producer T

pub data Consumer {ℓ} (T : Type ℓ) : Type ℓ where
  resting : Consumer T
  checked : Consumer T
  copied : T → Consumer T

pub record System {ℓ} (T : Type ℓ) : Type ℓ where
  pub bus : Bus T
  pub producer : Producer T
  pub consumer : Consumer T
  pub sent : List T
  pub received : List T

module _ {ℓ} {T : Type ℓ} (slots : ℕ) where
  pub data Step (s : System T) : System T → Type ℓ where
    push_full : s.producer ≡ Producer.resting → (s.bus.head + 1) % slots ≡ s.bus.tail → Step s s
    push_check :
        (item : T)
        → s.producer ≡ Producer.resting
        → (s.bus.head + 1) % slots ≢ s.bus.tail
        → Step s (record s { producer = Producer.checked item })
    push_write :
        (item : T)
        → s.producer ≡ Producer.checked item
        → Step s (record s { bus = write_slot slots s.bus item; producer = Producer.written item })
    push_publish :
        (item : T)
        → s.producer ≡ Producer.written item
        → Step s (record s {
          bus = publish slots s.bus;
          producer = Producer.resting;
          sent = s.sent ++ (item ∷ []);
        })
    pop_empty : s.consumer ≡ Consumer.resting → s.bus.tail ≡ s.bus.head → Step s s
    pop_check :
        s.consumer ≡ Consumer.resting
        → s.bus.tail ≢ s.bus.head
        → Step s (record s { consumer = Consumer.checked })
    pop_copy :
        s.consumer ≡ Consumer.checked
        → Step s (record s { consumer = Consumer.copied (s.bus.buffer s.bus.tail) })
    pop_release :
        (item : T)
        → s.consumer ≡ Consumer.copied item
        → Step s (record s {
          bus = release slots s.bus;
          consumer = Consumer.resting;
          received = s.received ++ (item ∷ []);
        })

  pub data Reach (s : System T) : System T → Type ℓ where
    here : Reach s s
    next : {t u : System T} → Reach s t → Step t u → Reach s u

  -- What each thread knows while it is under way.
  abbrev pub Sends : Bus T → Producer T → Type ℓ
  Sends b resting = Unit
  Sends b (checked x) = Unit {ℓ} × ((b.head + 1) % slots ≢ b.tail)
  Sends b (written x) = (b.buffer b.head ≡ x) × ((b.head + 1) % slots ≢ b.tail)

  abbrev pub Takes : Bus T → Consumer T → Type ℓ
  Takes b resting = Unit
  Takes b checked = Unit {ℓ} × (b.tail ≢ b.head)
  Takes b (copied x) = (b.buffer b.tail ≡ x) × (b.tail ≢ b.head)

  pub record Inv (s : System T) : Type ℓ where
    pub valid : IsValid slots s.bus
    pub sends : Sends s.bus s.producer
    pub takes : Takes s.bus s.consumer
    pub in_order : s.sent ≡ s.received ++ contents slots s.bus

  module _ {s : System T} (v : Inv s) where
    write-Inv :
        (x : T)
        → s.producer ≡ Producer.checked x
        → Inv (record s { bus = write_slot slots s.bus x; producer = Producer.written x })
    unfolding write_slot
    write-Inv x p = record {
      valid = omega arith;
      sends = (update_self s.bus.buffer s.bus.head x, (subst (Sends s.bus) p v.sends).1);
      takes = takes_after s.consumer v.takes;
      in_order = v.in_order ∙ ap (◌++◌ s.received) (sym (contents-write_slot slots x v.valid));
    }
      where
        takes_after : (c : Consumer T) → Takes s.bus c → Takes (write_slot slots s.bus x) c
        takes_after resting t = t
        takes_after checked t = t
        takes_after (copied y) t = (update_ne s.bus.buffer s.bus.head s.bus.tail x t.1 ∙ t.0, t.1)

    publish-Inv :
        (x : T)
        → s.producer ≡ Producer.written x
        → Inv (record s {
          bus = publish slots s.bus;
          producer = Producer.resting;
          sent = s.sent ++ (x ∷ []);
        })
    unfolding publish
    publish-Inv x p =
        let held = subst (Sends s.bus) p v.sends in
        record {
          valid = publish-IsValid slots v.valid;
          sends = tt;
          takes = takes_after held.1 s.consumer v.takes;
          in_order =
              ap₂ (λ xs y. xs ++ (y ∷ [])) v.in_order (sym held.0)
              ∙ append_assoc s.received (contents slots s.bus) _
              ∙ ap (◌++◌ s.received)
                  (sym (contents-publish slots v.valid (ground (arith, held.1))));
        }
      where
        takes_after :
            (s.bus.head + 1) % slots ≢ s.bus.tail
            → (c : Consumer T) → Takes s.bus c
            → Takes (publish slots s.bus) c
        takes_after h resting t = t
        takes_after h checked t = (tt, λ e. h (sym e))
        takes_after h (copied y) t = (t.0, λ e. h (sym e))

    release-Inv :
        (x : T)
        → s.consumer ≡ Consumer.copied x
        → Inv (record s {
          bus = release slots s.bus;
          consumer = Consumer.resting;
          received = s.received ++ (x ∷ []);
        })
    unfolding release
    release-Inv x p =
        let held = subst (Takes s.bus) p v.takes in
        record {
          valid = release-IsValid slots v.valid;
          sends = sends_after held.1 s.producer v.sends;
          takes = tt;
          in_order =
              v.in_order
              ∙ ap (◌++◌ s.received) (contents-release slots v.valid (ground (arith, held.1)))
              ∙ ap (λ y. s.received ++ (y ∷ contents slots (release slots s.bus))) held.0
              ∙ sym (append_assoc s.received (x ∷ []) _);
        }
      where
        apart : s.bus.tail ≢ s.bus.head → (s.bus.head + 1) % slots ≢ (s.bus.tail + 1) % slots
        apart h = ground (
          arith,
          v.valid,
          next_slot slots s.bus.head v.valid.head_in,
          next_slot slots s.bus.tail v.valid.tail_in,
        )

        sends_after :
            s.bus.tail ≢ s.bus.head
            → (q : Producer T) → Sends s.bus q
            → Sends (release slots s.bus) q
        sends_after h resting t = t
        sends_after h (checked y) t = (tt, apart h)
        sends_after h (written y) t = (t.0, apart h)

  pub Step-Inv : {s t : System T} → Step s t → Inv s → Inv t
  Step-Inv (push_full p h) v = v
  Step-Inv (push_check item p h) v = record {
    valid = v.valid;
    sends = (tt, h);
    takes = v.takes;
    in_order = v.in_order;
  }
  Step-Inv (push_write item p) v = write-Inv v item p
  Step-Inv (push_publish item p) v = publish-Inv v item p
  Step-Inv (pop_empty p h) v = v
  Step-Inv (pop_check p h) v = record {
    valid = v.valid;
    sends = v.sends;
    takes = (tt, h);
    in_order = v.in_order;
  }
  Step-Inv {s} (pop_copy p) v = record {
    valid = v.valid;
    sends = v.sends;
    takes = (refl, (subst (Takes s.bus) p v.takes).1);
    in_order = v.in_order;
  }
  Step-Inv (pop_release item p) v = release-Inv v item p

  pub Reach-Inv : {s t : System T} → Inv s → Reach s t → Inv t
  Reach-Inv v here = v
  Reach-Inv v (next r st) = Step-Inv st (Reach-Inv v r)

  abbrev pub boot : (ℕ → T) → System T
  boot memory = record {
    bus = record { buffer = memory; head = 0; tail = 0 };
    producer = Producer.resting;
    consumer = Consumer.resting;
    sent = [];
    received = [];
  }

  boot-Inv : (memory : ℕ → T) → 0 < slots → Inv (boot memory)
  boot-Inv memory h = record {
    valid = omega arith;
    sends = tt;
    takes = tt;
    in_order = sym (contents-empty slots (omega arith) refl);
  }

  -- In every state that any interleaving of the producer and the consumer reaches from the empty
  -- bus with at least one slot, the items published are the items received followed by the
  -- contents of the ring: nothing is lost, doubled or reordered.
  pub fifo_under_interleaving :
      (memory : ℕ → T) {s : System T}
      → 0 < slots
      → Reach (boot memory) s
      → s.sent ≡ s.received ++ contents slots s.bus
  fifo_under_interleaving memory h r = (Reach-Inv (boot-Inv memory h) r).in_order

  -- In every reachable state in which the producer is past its test and about to write a slot,
  -- while the consumer is past its test and about to read one, the two slots differ.
  pub no_data_race :
      (memory : ℕ → T) {s : System T} (item : T)
      → 0 < slots
      → Reach (boot memory) s
      → s.producer ≡ Producer.checked item
      → s.consumer ≡ Consumer.checked
      → s.bus.head ≢ s.bus.tail
  no_data_race memory {s} item h r p c e =
      (subst (Takes s.bus) c (Reach-Inv (boot-Inv memory h) r).takes).1 (sym e)
