-- ===== src/Prelude/Int.antt =====
-- The C++ `int` as an id: a negative value is the source's sentinel. `negsuc n` is -(n + 1).
use Prim.Native.Nat.{ℕ, ◌<◌}
use mathlib.Core.Path.{◌≡◌, ap}
use mathlib.Core.Bool.{Bool, true, false}
use mathlib.Core.Option.{Option, none, some}
use native.Mathlib.Omega.{arith}
use engram_core.Prelude.Tests.{◌==◌, ltb, if◌then◌else◌}

pub data ℤ : Type 0 where
  pos : ℕ → ℤ
  negsuc : ℕ → ℤ

abbrev pub minus_one : ℤ
minus_one = negsuc 0

abbrev pub ◌==ℤ◌ : ℤ → ℤ → Bool
◌==ℤ◌ (pos a) (pos b) = a == b
◌==ℤ◌ (negsuc a) (negsuc b) = a == b
◌==ℤ◌ _ _ = false

-- The test `id < 0 || id >= count` of the source: the index, if the test fails.
abbrev pub in_range : ℕ → ℤ → Option ℕ
in_range count (pos n) = if ltb n count then some n else none
in_range count (negsuc n) = none

pub in_range_bound :
    (count : ℕ) (z : ℤ) {n : ℕ} → in_range count z ≡ some n → (n < count) × (z ≡ pos n)
in_range_bound count (pos m) h = ground arith
in_range_bound count (negsuc m) h = ground arith

pub ==ℤ_sound : (a b : ℤ) → ◌==ℤ◌ a b ≡ true → a ≡ b
==ℤ_sound (pos a) (pos b) h = ap pos (ground arith)
==ℤ_sound (pos a) (negsuc b) h = cc
==ℤ_sound (negsuc a) (pos b) h = cc
==ℤ_sound (negsuc a) (negsuc b) h = ap negsuc (ground arith)

pub ==ℤ_self : (a : ℤ) → ◌==ℤ◌ a a ≡ true
==ℤ_self (pos a) = ground arith
==ℤ_self (negsuc a) = ground arith
