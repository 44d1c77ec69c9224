-- ===== src/Sensor.antt =====
-- SensorBus of src/core/sensor_bus.h: a ring buffer between one producer and one consumer.
-- `buffer` is the array, read and written at indices below `slots`, the template's `Size`.
pub mod Window
pub mod Queue
pub mod Spsc
use engram_core.Prelude.{
  ℕ, ◌+◌, ◌-◌, ◌%◌, Bool, true, false, Option, none, some, leb, ◌==◌, if◌then◌else◌, update,
}

pub record Bus {ℓ} (T : Type ℓ) : Type ℓ where
  pub buffer : ℕ → T
  pub head : ℕ
  pub tail : ℕ

module _ {ℓ} {T : Type ℓ} (slots : ℕ) where
  -- The stores of `push` and `pop`: `buffer[current_head] = item`, `head.store(next_head)`, and
  -- `tail.store((current_tail + 1) % Size)`.
  unfoldable pub write_slot : Bus T → T → Bus T
  write_slot b item = record b { buffer = update b.buffer b.head item }

  unfoldable pub publish : Bus T → Bus T
  publish b = record b { head = (b.head + 1) % slots }

  unfoldable pub release : Bus T → Bus T
  release b = record b { tail = (b.tail + 1) % slots }

  -- `push`: the new bus and the result. A full bus drops the item.
  unfoldable pub push : Bus T → T → Bus T × Bool
  unfolding write_slot publish
  push b item =
      let next_head = (b.head + 1) % slots in
      if next_head == b.tail then (b, false) else (publish (write_slot b item), true)

  -- `pop`: the new bus and the item, none where the source returns false.
  unfoldable pub pop : Bus T → Bus T × Option T
  unfolding release
  pop b = if b.tail == b.head then (b, none) else (release b, some (b.buffer b.tail))

  unfoldable pub size : Bus T → ℕ
  size b = if leb b.tail b.head then b.head - b.tail else slots - b.tail + b.head
