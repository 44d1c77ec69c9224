-- ===== src/Neuromod.antt =====
-- The global modulator of src/core/fpsan_neuromod.h: plasticity, arousal and the surprise average.
use engram_core.Prelude.{Bool, if◌then◌else◌}
use engram_core.Prelude.Float.{Float, fmin, fmax}

pub record NeuromodState (F : Float) : Type 0 where
  pub plasticity_scale : F.Carrier
  pub arousal : F.Carrier
  pub last_prediction_error : F.Carrier
  pub pe_ema : F.Carrier

module _ (F : Float) where
  open F use {Carrier, add, sub, mul, lit}

  -- `std::max(0.0f, std::min(1.0f, x))`.
  unfoldable pub clamp_unit : Carrier → Carrier
  clamp_unit x = fmax F (lit 0 1) (fmin F (lit 1 1) x)

  unfoldable pub plasticity_scale_load : NeuromodState F → Carrier
  plasticity_scale_load s = fmax F (lit 0 1) (fmin F (lit 3 1) s.plasticity_scale)

  unfoldable pub arousal_load : NeuromodState F → Carrier
  unfolding clamp_unit
  arousal_load s = clamp_unit s.arousal

  unfoldable pub sync_arousal : Carrier → Carrier → NeuromodState F → NeuromodState F
  unfolding clamp_unit
  sync_arousal frustration doubt s = record s {
    arousal = fmin F (lit 1 1) (
        add (add (mul (lit 35 100) (clamp_unit frustration)) (mul (lit 25 100) (clamp_unit doubt)))
          (lit 5 100));
  }

  unfoldable pub update_from_prediction_error : Carrier → NeuromodState F → NeuromodState F
  unfolding clamp_unit
  update_from_prediction_error prediction_error s =
      let pe = clamp_unit prediction_error in
      let ema = add (mul (lit 2 10) pe) (mul (sub (lit 1 1) (lit 2 10)) s.pe_ema) in
      record s {
        last_prediction_error = pe;
        pe_ema = ema;
        plasticity_scale = fmax F (lit 5 100) (fmin F (lit 15 10) (mul ema (lit 125 100)));
      }

  -- A low arousal gives a stricter cutoff.
  unfoldable pub effective_activation_cutoff : Carrier → NeuromodState F → Carrier
  unfolding arousal_load
  effective_activation_cutoff base s =
      mul base (sub (lit 125 100) (mul (lit 75 100) (arousal_load s)))

  unfoldable pub set_plasticity_ablation_bypass : Bool → NeuromodState F → NeuromodState F
  set_plasticity_ablation_bypass on s = if on then record s { plasticity_scale = lit 1 1 } else s
