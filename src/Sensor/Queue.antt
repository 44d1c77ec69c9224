-- ===== src/Sensor/Queue.antt =====
-- SensorBus of src/core/sensor_bus.h against a bounded queue of one item fewer than it has slots.
use engram_core.Prelude.{
  update_self, sym, ap₂, ℕ, suc, ◌+◌, ◌-◌, ◌%◌, ◌<◌, ◌≡◌, ap, ◌∙◌, List, [], ◌∷◌, ◌++◌, Bool, true,
  false, Option, none, some, length, ltb, ◌==◌, if◌then◌else◌, arith, not, dec_le,
}
use engram_core.Sensor.{write_slot, publish, release, Bus, push, pop, size}
use engram_core.Sensor.Window.{
  window, window-snoc, length-window, window-update, window-mod, window-suc, slots_differ,
  next_slot, wrap_below, wrap_above,
}

module _ {ℓ} {T : Type ℓ} (slots : ℕ) where
  pub record IsValid (b : Bus T) : Type 0 where
    pub head_in : b.head < slots
    pub tail_in : b.tail < slots

  -- What the consumer has still to read, oldest first.
  abbrev pub contents : Bus T → List T
  contents b = window slots b.buffer b.tail (size slots b)

  -- The bounded queue.
  unfoldable pub queue_push : List T → T → List T × Bool
  queue_push q x = if ltb (length q) (slots - 1) then (q ++ (x ∷ []), true) else (q, false)

  unfoldable pub queue_pop : List T → List T × Option T
  queue_pop [] = ([], none)
  queue_pop (x ∷ q) = (q, some x)

  pub head_slot : {b : Bus T} → IsValid b → (b.tail + size slots b) % slots ≡ b.head
  unfolding size
  head_slot {b} v = elim (dec_le b.tail b.head) [
    | yes p ↦ ground (arith, wrap_below slots b.head)
    | no p ↦ ground (arith, wrap_above slots (b.tail + (slots - b.tail + b.head)))
  ]

  -- No index leaves the array, whatever is called.
  pub push-IsValid : {b : Bus T} (x : T) → IsValid b → IsValid (push slots b x).0
  unfolding push
  push-IsValid {b} x v = ground (arith, next_slot slots b.head)

  pub pop-IsValid : {b : Bus T} → IsValid b → IsValid (pop slots b).0
  unfolding pop
  pop-IsValid {b} v = ground (arith, next_slot slots b.tail)

  pub size-lt : {b : Bus T} → IsValid b → size slots b < slots
  unfolding size
  size-lt v = ground arith

  -- The full test of `push` counts the items.
  full_iff :
      {b : Bus T}
      → IsValid b
      → ((b.head + 1) % slots == b.tail) ≡ not (ltb (size slots b) (slots - 1))
  unfolding size
  full_iff {b} v = ground (arith, next_slot slots b.head)

  size-publish :
      {b : Bus T}
      → IsValid b
      → ((b.head + 1) % slots == b.tail) ≡ false
      → size slots (publish slots b) ≡ suc (size slots b)
  unfolding publish size
  size-publish {b} v h = ground (arith, next_slot slots b.head)

  size-release :
      {b : Bus T}
      → IsValid b
      → (b.tail == b.head) ≡ false
      → size slots b ≡ suc (size slots (release slots b))
  unfolding release size
  size-release {b} v h = ground (arith, next_slot slots b.tail)

  -- The slot at `head` holds nothing that the consumer has still to read.
  pub contents-write_slot :
      {b : Bus T} (x : T) → IsValid b → contents (write_slot slots b x) ≡ contents b
  unfolding write_slot size
  contents-write_slot {b} x v = window-update slots b.buffer b.tail (size slots b) b.head x λ k hk.
      rw (← head_slot v) (slots_differ slots b.tail k (size slots b) v.tail_in hk (size-lt v))

  pub contents-publish :
      {b : Bus T}
      → IsValid b
      → ((b.head + 1) % slots == b.tail) ≡ false
      → contents (publish slots b) ≡ contents b ++ (b.buffer b.head ∷ [])
  unfolding publish
  contents-publish {b} v h = rw (size-publish v h) (
      window-snoc slots b.buffer b.tail (size slots b)
      ∙ ap (λ i. contents b ++ (b.buffer i ∷ [])) (head_slot v))

  pub contents-release :
      {b : Bus T}
      → IsValid b
      → (b.tail == b.head) ≡ false
      → contents b ≡ b.buffer b.tail ∷ contents (release slots b)
  unfolding release
  contents-release {b} v h = rw (size-release v h) (
      window-suc slots b.buffer b.tail _ v.tail_in
      ∙ ap (◌∷◌ (b.buffer b.tail)) (sym (window-mod slots b.buffer (b.tail + 1) _)))

  pub write_slot-IsValid : {b : Bus T} (x : T) → IsValid b → IsValid (write_slot slots b x)
  unfolding write_slot
  write_slot-IsValid x v = omega arith

  pub publish-IsValid : {b : Bus T} → IsValid b → IsValid (publish slots b)
  unfolding publish
  publish-IsValid {b} v = ground (arith, next_slot slots b.head)

  pub release-IsValid : {b : Bus T} → IsValid b → IsValid (release slots b)
  unfolding release
  release-IsValid {b} v = ground (arith, next_slot slots b.tail)

  contents-push :
      {b : Bus T} (x : T)
      → IsValid b
      → ((b.head + 1) % slots == b.tail) ≡ false
      → contents (publish slots (write_slot slots b x)) ≡ contents b ++ (x ∷ [])
  unfolding write_slot
  contents-push {b} x v h =
      contents-publish (write_slot-IsValid x v) h
      ∙ ap₂ (λ xs y. xs ++ (y ∷ [])) (contents-write_slot x v) (update_self b.buffer b.head x)

  pub contents-empty : {b : Bus T} → IsValid b → (b.tail == b.head) ≡ true → contents b ≡ []
  unfolding window size
  contents-empty v h = ground arith

  -- `push` answers as the bounded queue does, and leaves the bus holding that queue.
  pub push_refines :
      {b : Bus T} (x : T)
      → IsValid b
      → let (b', done) = push slots b x in (contents b', done) ≡ queue_push (contents b) x
  unfolding queue_push
  push_refines {b} x v =
      unfold push in
      ground
        (arith, contents-push x v, full_iff v, length-window slots b.buffer b.tail (size slots b))

  -- So does `pop`.
  pub pop_refines :
      {b : Bus T}
      → IsValid b
      → let (b', item) = pop slots b in (contents b', item) ≡ queue_pop (contents b)
  unfolding pop queue_pop
  pop_refines {b} v = ground (arith, contents-release v, contents-empty v)
