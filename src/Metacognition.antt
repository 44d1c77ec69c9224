-- ===== src/Metacognition.antt =====
-- The confidence of a generated text (src/core/fpsan_metacognition.h).
use engram_core.Prelude.{
  ℕ, ◌+◌, ◌≡◌, Bool, true, false, ◌&&◌, ltb, ◌==◌, if◌then◌else◌, Bool-cases, inl, inr,
}
use engram_core.Prelude.Float.{Float, IsOrder}

pub record MetaCognition (F : Float) : Type 0 where
  pub total_margin : F.Carrier
  pub branch_points : ℕ
  pub words_generated : ℕ
  pub words_before_stop : ℕ
  pub min_margin : F.Carrier
  pub max_margin : F.Carrier
  pub stopped_at_hub : Bool
  pub unknown_seed : Bool

pub data Label : Type 0 where
  high : Label
  medium : Label
  low : Label
  unknown_topic : Label

module _ (F : Float) where
  open F use {Carrier, add, sub, mul, div, neg, lit}

  unfoldable pub reset : MetaCognition F
  reset = record {
    total_margin = lit 0 1;
    branch_points = 0;
    words_generated = 0;
    words_before_stop = 0;
    min_margin = lit 999 1;
    max_margin = neg (lit 999 1);
    stopped_at_hub = false;
    unknown_seed = false;
  }

  unfoldable pub record_branch : Carrier → Carrier → ℕ → MetaCognition F → MetaCognition F
  record_branch best_score second_best word_pos m =
      let margin = sub best_score second_best in
      record m {
        total_margin = add m.total_margin margin;
        branch_points = m.branch_points + 1;
        words_before_stop = word_pos;
        min_margin = if F.ltb margin m.min_margin then margin else m.min_margin;
        max_margin = if F.ltb m.max_margin margin then margin else m.max_margin;
      }

  -- The average margin over 0.3, capped at 1 and floored at 0, one test after the other.
  unfoldable pub mapped_margin : MetaCognition F → Carrier
  mapped_margin m =
      let raw = div (div m.total_margin (lit m.branch_points 1)) (lit 3 10) in
      let capped = if F.ltb (lit 1 1) raw then lit 1 1 else raw in
      if F.ltb capped (lit 0 1) then lit 0 1 else capped

  unfoldable pub compute_confidence : MetaCognition F → Carrier
  unfolding mapped_margin
  compute_confidence m =
      if m.unknown_seed
      then lit 0 1
      else if m.words_generated == 0
      then lit 0 1
      else if m.branch_points == 0
      then lit 1 1
      else if ltb m.words_generated 3 && ltb 0 m.branch_points
      then mul (mapped_margin m) (lit 6 10)
      else mapped_margin m

  unfoldable pub confidence_label : MetaCognition F → Label
  unfolding compute_confidence
  confidence_label m =
      let c = compute_confidence m in
      if F.leb (lit 7 10) c
      then high
      else if F.leb (lit 4 10) c
      then medium
      else if F.leb (lit 1 10) c
      then low
      else unknown_topic

  unfoldable pub confidence_color : MetaCognition F → ℕ
  unfolding compute_confidence
  confidence_color m =
      let c = compute_confidence m in
      if F.leb (lit 7 10) c
      then 10
      else if F.leb (lit 4 10) c
      then 14
      else if F.leb (lit 1 10) c
      then 12
      else 8

  -- Neither below 0 nor above 1.
  abbrev pub InUnit : Carrier → Type 0
  InUnit x = (F.ltb x (lit 0 1) ≡ false) × (F.ltb (lit 1 1) x ≡ false)

  module _ (o : IsOrder F) (zero_one : F.ltb (lit 0 1) (lit 1 1) ≡ true) where
    zero-InUnit : InUnit (lit 0 1)
    zero-InUnit = (o.irrefl (lit 0 1), o.asymm (lit 0 1) (lit 1 1) zero_one)

    one-InUnit : InUnit (lit 1 1)
    one-InUnit = (o.asymm (lit 0 1) (lit 1 1) zero_one, o.irrefl (lit 1 1))

    mapped_margin-InUnit : (m : MetaCognition F) → InUnit (mapped_margin m)
    unfolding mapped_margin
    mapped_margin-InUnit m = elim (Bool-cases (F.ltb (lit 1 1) raw)) [
      | inl above ↦ rw (above, one-InUnit.0) one-InUnit
      | inr within ↦ elim (Bool-cases (F.ltb raw (lit 0 1))) [
        | inl below ↦ rw (within, below) zero-InUnit
        | inr fits ↦ rw (within, fits) (fits, within)
      ]
    ]
      where
        raw : Carrier
        raw = div (div m.total_margin (lit m.branch_points 1)) (lit 3 10)

    -- If scaling by 0.6 keeps a number between 0 and 1, the confidence always lies between 0 and 1,
    -- whatever margins were recorded.
    pub compute_confidence-InUnit :
        ((x : Carrier) → InUnit x → InUnit (mul x (lit 6 10)))
        → (m : MetaCognition F) → InUnit (compute_confidence m)
    unfolding compute_confidence
    compute_confidence-InUnit shrink m = elim (Bool-cases m.unknown_seed) [
      | inl unseen ↦ rw unseen zero-InUnit
      | inr seen ↦ elim (Bool-cases (m.words_generated == 0)) [
        | inl silent ↦ rw (seen, silent) zero-InUnit
        | inr spoke ↦ elim (Bool-cases (m.branch_points == 0)) [
          | inl straight ↦ rw (seen, spoke, straight) one-InUnit
          | inr branched ↦ elim (Bool-cases (ltb m.words_generated 3 && ltb 0 m.branch_points)) [
            | inl short ↦
                rw (seen, spoke, branched, short)
                  (shrink (mapped_margin m) (mapped_margin-InUnit m))
            | inr long ↦ rw (seen, spoke, branched, long) (mapped_margin-InUnit m)
          ]
        ]
      ]
    ]
