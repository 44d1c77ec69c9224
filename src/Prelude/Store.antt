-- ===== src/Prelude/Store.antt =====
-- Memory as a function of the index, with a write at one index.
use Prim.Native.Nat.{ℕ}
use mathlib.Core.Path.{◌≡◌, refl}
use mathlib.Core.Bool.{Bool, true, false, ◌&&◌}
use mathlib.Core.Logic.{◌≢◌}
use native.Mathlib.Omega.{arith}
use engram_core.Prelude.Tests.{◌==◌, if◌then◌else◌}

module _ {ℓ} {A : Type ℓ} where
  abbrev pub update : (ℕ → A) → ℕ → A → ℕ → A
  update f i a j = if j == i then a else f j

  pub update_self : (f : ℕ → A) (i : ℕ) (a : A) → update f i a i ≡ a
  update_self f i a = ground arith

  pub update_ne : (f : ℕ → A) (i j : ℕ) (a : A) → j ≢ i → update f i a j ≡ f j
  update_ne f i j a h = ground arith

  -- A write under a condition, read at `j`.
  pub update_if :
      (b : Bool) (f : ℕ → A) (i j : ℕ) (a : A)
      → (if b then update f i a else f) j ≡ (if b && (j == i) then a else f j)
  update_if true f i j a = refl
  update_if false f i j a = refl
