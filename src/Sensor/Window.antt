-- ===== src/Sensor/Window.antt =====
-- The items of SensorBus (src/core/sensor_bus.h) in a stretch of the circular array.
use native.Mathlib.Nat.{mod-add-mod, mod-eq_of_lt, mod-eq-sub-mod}
use engram_core.Prelude.{
  ℕ, zero, suc, ◌+◌, ◌-◌, ◌%◌, ◌≤◌, ◌<◌, ◌≡◌, ◌≢◌, refl, ap, ap₂, ◌∙◌, List, [], ◌∷◌, ◌++◌, length,
  length-append, arith, dec_lt, update, if◌then◌else◌, ◌==◌,
}

module _ (slots : ℕ) where
  pub wrap_below : (a : ℕ) → a < slots → a % slots ≡ a
  wrap_below a h = mod-eq_of_lt h

  pub wrap_above : (a : ℕ) → slots ≤ a → a < slots + slots → a % slots ≡ a - slots
  wrap_above a h k =
      mod-eq-sub-mod {n = a} {m = slots} h ∙ mod-eq_of_lt {n = a - slots} {m = slots} (omega arith)

  -- The step round the ring.
  pub next_slot : (h : ℕ) → h < slots → (h + 1) % slots ≡ (if h + 1 == slots then 0 else h + 1)
  next_slot h p = elim (dec_lt (h + 1) slots) [
    | yes q ↦ ground (arith, wrap_below (h + 1) q)
    | no q ↦ ground (arith, wrap_above (h + 1) (omega arith) (omega arith))
  ]

  -- Fewer than `slots` steps apart, two slots differ.
  pub slots_differ : (t k m : ℕ) → t < slots → k < m → m < slots → (t + k) % slots ≢ (t + m) % slots
  slots_differ t k m ht km hm = elim (dec_lt (t + k) slots) [
    | yes p ↦ elim (dec_lt (t + m) slots) [
      | yes q ↦ omega (arith, wrap_below (t + k) p, wrap_below (t + m) q)
      | no q ↦ omega (arith, wrap_below (t + k) p, wrap_above (t + m) (omega arith) (omega arith))
    ]
    | no p ↦ omega (
      arith,
      wrap_above (t + k) (omega arith) (omega arith),
      wrap_above (t + m) (omega arith) (omega arith),
    )
  ]

  module _ {ℓ} {T : Type ℓ} where
    -- `n` items from index `t` on, oldest first.
    unfoldable pub window : (ℕ → T) → ℕ → ℕ → List T
    window buffer t zero = []
    window buffer t (suc n) = window buffer t n ++ (buffer ((t + n) % slots) ∷ [])

    -- The youngest item last.
    pub window-snoc :
        (buffer : ℕ → T) (t n : ℕ)
        → window buffer t (suc n) ≡ window buffer t n ++ (buffer ((t + n) % slots) ∷ [])
    unfolding window
    window-snoc buffer t n = refl

    pub length-window : (buffer : ℕ → T) (t n : ℕ) → length (window buffer t n) ≡ n
    unfolding window
    length-window buffer t zero = refl
    length-window buffer t (suc n) = omega (
      arith,
      length-append (window buffer t n) (buffer ((t + n) % slots) ∷ []),
      length-window buffer t n,
    )

    -- A write outside the stretch does not show.
    pub window-update :
        (buffer : ℕ → T) (t n i : ℕ) (x : T)
        → ((k : ℕ) → k < n → (t + k) % slots ≢ i)
        → window (update buffer i x) t n ≡ window buffer t n
    unfolding window
    window-update buffer t zero i x h = refl
    window-update buffer t (suc n) i x h =
        ap₂ (λ xs y. xs ++ (y ∷ [])) (window-update buffer t n i x (λ k hk. h k (omega arith)))
          (ground (arith, h n (omega arith)))

    pub window-mod : (buffer : ℕ → T) (t n : ℕ) → window buffer (t % slots) n ≡ window buffer t n
    unfolding window
    window-mod buffer t zero = refl
    window-mod buffer t (suc n) =
        ap₂ (λ xs y. xs ++ (y ∷ [])) (window-mod buffer t n) (ap buffer (mod-add-mod t slots n))

    -- The oldest item first.
    pub window-suc :
        (buffer : ℕ → T) (t n : ℕ)
        → t < slots
        → window buffer t (suc n) ≡ buffer t ∷ window buffer (t + 1) n
    unfolding window
    window-suc buffer t zero h =
        ap (λ i. buffer i ∷ []) (ap (λ i. i % slots) (omega arith) ∙ mod-eq_of_lt h)
    window-suc buffer t (suc n) h =
        ap₂ (λ xs i. xs ++ (buffer (i % slots) ∷ [])) (window-suc buffer t n h) (omega arith)
