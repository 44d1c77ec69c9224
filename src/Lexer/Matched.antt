-- ===== src/Lexer/Matched.antt =====
-- What a round of `group_phrases` (src/core/fpsan_lexer.h) finds.
use engram_core.Prelude.{
  ℕ, ◌+◌, ◌≡◌, ◌∙◌, refl, sym, ap, inl, inr, List, true, false, ◌||◌, Option, none, some, ltb,
  Bool-cases, arith,
}
use engram_core.Lexer.{pos_noun, pos_verb, pos_adj, pos_det, pos_adv, pos_pron, pos_punct, pos_aux}
use engram_core.Lexer.Tokenizer.{Token}
use engram_core.Lexer.Grouper.{Phrase, tag_at, noun_phrase, verb_phrase, phrase_step}
use engram_core.Lexer.Grammar.{
  tag_at_lt, tag_at_ne, IsPhrase, Content, head_from-Before, head_from-le, head_from,
  Before-Content, det_free, aux_free, no-Content,
}

module _ (tokens : List Token) where
  -- What a round finds at `i`.
  abbrev pub Found : ℕ → Option Phrase × ℕ → Type 0
  Found i (none, next) = (next ≡ i + 1) × (Content tokens i → ⊥)
  Found i (some p, next) = (p.start_token ≡ i) × (p.end_token ≡ next) × IsPhrase tokens p

  noun_phrase-Found :
      (i : ℕ)
      → (tag_at tokens pos_det i
          || (tag_at tokens pos_adj i || (tag_at tokens pos_noun i || tag_at tokens pos_pron i)))
        ≡ true
      → Found i (noun_phrase tokens i)
  unfolding noun_phrase
  noun_phrase-Found i some_tag =
      let head = head_from tokens pos_det pos_adj i in
      let before = head_from-Before tokens pos_det pos_adj i in
      let le = head_from-le tokens pos_det pos_adj i in
      elim (Bool-cases (tag_at tokens pos_noun head)) [
        | inl noun ↦ rw noun (
          refl,
          refl,
          record {
            ends = refl;
            starts = le;
            within = omega (arith, tag_at_lt tokens pos_noun head noun);
            form = inl (refl, before, inl noun);
          },
        )
        | inr not_noun ↦ elim (Bool-cases (tag_at tokens pos_pron head)) [
          | inl pron ↦
              rw (not_noun, pron)
                (
                  refl,
                  refl,
                  record {
                    ends = refl;
                    starts = le;
                    within = omega (arith, tag_at_lt tokens pos_pron head pron);
                    form = inl (refl, before, inr pron);
                  },
                )
          | inr not_pron ↦ elim (Bool-cases (ltb i head)) [
            | inl later ↦
                rw (not_noun, not_pron, later)
                  (
                    refl,
                    Before-Content tokens pos_det pos_adj i head before (det_free tokens) i
                        (omega arith) (ground arith),
                  )
            | inr at ↦
                let here : head ≡ i = ground arith in
                let no_noun : tag_at tokens pos_noun i ≡ false =
                  sym (ap (λ k. tag_at tokens pos_noun k) here) ∙ not_noun in
                let no_pron : tag_at tokens pos_pron i ≡ false =
                  sym (ap (λ k. tag_at tokens pos_pron k) here) ∙ not_pron in
                rw (not_noun, not_pron, at, no_pron) (refl, no_verb no_noun no_pron)
          ]
        ]
      ]
    where
      no_verb :
          tag_at tokens pos_noun i ≡ false → tag_at tokens pos_pron i ≡ false → Content tokens i → ⊥
      no_verb n p (inl noun) = cc
      no_verb n p (inr (inl pron)) = cc
      no_verb n p (inr (inr verb)) =
          let d = tag_at_ne tokens pos_verb pos_det i verb (λ q. omega arith) in
          let a = tag_at_ne tokens pos_verb pos_adj i verb (λ q. omega arith) in ground arith

  verb_phrase-Found :
      (i : ℕ)
      → (tag_at tokens pos_aux i || (tag_at tokens pos_adv i || tag_at tokens pos_verb i)) ≡ true
      → Found i (verb_phrase tokens i)
  unfolding verb_phrase
  verb_phrase-Found i some_tag =
      let head = head_from tokens pos_aux pos_adv i in
      elim (Bool-cases (tag_at tokens pos_verb head)) [
        | inl verb ↦ rw verb (
          refl,
          refl,
          record {
            ends = refl;
            starts = head_from-le tokens pos_aux pos_adv i;
            within = omega (arith, tag_at_lt tokens pos_verb head verb);
            form = inr (refl, head_from-Before tokens pos_aux pos_adv i, inl verb);
          },
        )
        | inr no_head ↦ elim (Bool-cases (tag_at tokens pos_verb i)) [
          | inl verb ↦
              rw (no_head, verb)
                (
                  refl,
                  refl,
                  record {
                    ends = refl;
                    starts = omega arith;
                    within = omega (arith, tag_at_lt tokens pos_verb i verb);
                    form = inr (refl, λ j le lt. absurd (omega arith), inl verb);
                  },
                )
          | inr no_verb ↦ elim (Bool-cases (tag_at tokens pos_aux i)) [
            | inl aux ↦
                rw (no_head, no_verb, aux)
                  (
                    refl,
                    refl,
                    record {
                      ends = refl;
                      starts = omega arith;
                      within = omega (arith, tag_at_lt tokens pos_aux i aux);
                      form = inr (refl, λ j le lt. absurd (omega arith), inr (refl, aux));
                    },
                  )
            | inr no_aux ↦
                let adv : tag_at tokens pos_adv i ≡ true = ground arith in
                rw (no_head, no_verb, no_aux) (refl, aux_free tokens pos_adv i (inr refl) adv)
          ]
        ]
      ]

  pub phrase_step-Found : (i : ℕ) → Found i (phrase_step tokens i)
  unfolding phrase_step
  phrase_step-Found i = elim (Bool-cases (tag_at tokens pos_punct i)) [
    | inl punct ↦ rw punct (
      refl,
      no-Content tokens i pos_punct punct (λ q. omega arith) (λ q. omega arith) (λ q. omega arith),
    )
    | inr no_punct ↦
        elim (Bool-cases (
          tag_at tokens pos_det i
          || (tag_at tokens pos_adj i || (tag_at tokens pos_noun i || tag_at tokens pos_pron i)))) [
            | inl nominal ↦ rw (no_punct, nominal) (noun_phrase-Found i nominal)
            | inr not_nominal ↦
                elim (Bool-cases (
                  tag_at tokens pos_aux i
                  || (tag_at tokens pos_adv i || tag_at tokens pos_verb i))) [
                    | inl verbal ↦ rw (no_punct, not_nominal, verbal) (verb_phrase-Found i verbal)
                    | inr neither ↦
                        rw (no_punct, not_nominal, neither) (refl, nothing not_nominal neither)
                  ]
          ]
  ]
    where
      nothing :
          (tag_at tokens pos_det i
              || (tag_at tokens pos_adj i
                  || (tag_at tokens pos_noun i || tag_at tokens pos_pron i)))
            ≡ false
          → (tag_at tokens pos_aux i || (tag_at tokens pos_adv i || tag_at tokens pos_verb i))
            ≡ false
          → Content tokens i
          → ⊥
      nothing a b (inl noun) = ground arith
      nothing a b (inr (inl pron)) = ground arith
      nothing a b (inr (inr verb)) = ground arith
