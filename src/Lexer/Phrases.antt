-- ===== src/Lexer/Phrases.antt =====
-- What `group_phrases` (src/core/fpsan_lexer.h) finds in the tokens.
use engram_core.Prelude.{
  ℕ, zero, suc, ◌+◌, ◌≤◌, ◌<◌, ◌≡◌, subst, inl, inr, List, [], ◌∷◌, length, Option, none, some, ltb,
  Bool-cases, dec_lt, arith,
}
use engram_core.Lexer.{pos_noun, pos_verb, pos_pron}
use engram_core.Lexer.Tokenizer.{Token}
use engram_core.Lexer.Grouper.{Phrase, phrase_step, group_loop, group_phrases, max_phrases}
use engram_core.Lexer.Grammar.{tag_at_lt, Content, Headed, InOrder, Content-head}
use engram_core.Lexer.Matched.{Found, phrase_step-Found}

module _ (tokens : List Token) where
  -- With a round for each token from `i` on: the phrases follow each other, there are at most as many
  -- as the room, and with room left every content token from `i` on is the head of one.
  abbrev pub Parsed : ℕ → ℕ → List Phrase → Type 0
  Parsed room i ps =
      InOrder tokens i ps
      × (length ps ≤ room)
      × (length ps < room → (j : ℕ) → i ≤ j → Content tokens j → Headed tokens j ps)

  Content-lt : (j : ℕ) → Content tokens j → j < length tokens
  Content-lt j (inl noun) = tag_at_lt tokens pos_noun j noun
  Content-lt j (inr (inl pron)) = tag_at_lt tokens pos_pron j pron
  Content-lt j (inr (inr verb)) = tag_at_lt tokens pos_verb j verb

  order_from : (i k : ℕ) (ps : List Phrase) → i ≤ k → InOrder tokens k ps → InOrder tokens i ps
  order_from i k [] le h = tt
  order_from i k (p ∷ ps) le h = (omega (arith, h.0), h.1, h.2)

  group_loop-Parsed :
      (rounds room i : ℕ)
      → length tokens ≤ i + rounds
      → Parsed room i (group_loop tokens rounds room i)
  unfolding group_loop
  group_loop-Parsed zero room i enough =
      (tt, omega arith, λ lt j le c. absurd (omega (arith, Content-lt j c)))
  group_loop-Parsed (suc rounds) zero i enough =
      (tt, omega arith, λ lt j le c. absurd (omega arith))
  group_loop-Parsed (suc rounds) (suc room) i enough = elim (Bool-cases (ltb i (length tokens))) [
    | inr over ↦
        rw (over, group_loop)
          (tt, omega arith, λ lt j le c. absurd (ground (arith, Content-lt j c)))
    | inl more ↦
        rw (more, group_loop)
          (go (phrase_step tokens i).0 (phrase_step tokens i).1 (phrase_step-Found tokens i)
            (λ k next h. group_loop-Parsed rounds k next h))
  ]
    where
      go :
          (found : Option Phrase) (next : ℕ)
          → Found tokens i (found, next)
          → ((k next : ℕ)
              → length tokens ≤ next + rounds
              → Parsed k next (group_loop tokens rounds k next))
          → Parsed (suc room) i (elim found as (λ x. List Phrase) [
            | none ↦ group_loop tokens rounds (suc room) next
            | some p ↦ p ∷ group_loop tokens rounds room next
          ])
      go none next h later =
          let ih = later (suc room) next (omega (arith, h.0)) in
          let rest = group_loop tokens rounds (suc room) next in
          (
            order_from i next rest (omega (arith, h.0)) ih.0,
            ih.1,
            λ lt j le c. elim (dec_lt i j) [
              | yes after ↦ ih.2 lt j (omega (arith, h.0)) c
              | no at ↦
                  let here : j ≡ i = omega arith in absurd (h.1 (subst (Content tokens) here c))
            ],
          )
      go (some p) next h later =
          let is = h.2 in
          let ih = later room next (omega (arith, h.0, h.1, is.ends, is.starts)) in
          let rest = group_loop tokens rounds room next in
          (
            (omega (arith, h.0), is, order_from p.end_token next rest (omega (arith, h.1)) ih.0),
            omega (arith, ih.1),
            λ lt j le c. elim (dec_lt j p.end_token) [
              | yes inside ↦ inl (Content-head tokens p is j (omega (arith, h.0)) inside c)
              | no after ↦ inr (ih.2 (omega arith) j (omega (arith, h.1)) c)
            ],
          )

  -- The phrases stand one after the other, and each is a noun phrase (a determiner and adjectives, both
  -- optional, and a noun or pronoun) or a verb phrase (an auxiliary and adverbs, both optional, and a
  -- verb; or an auxiliary alone) that ends with its head. There are at most 32, and if there are
  -- fewer, every noun, pronoun and verb is the head of one.
  pub group_phrases-Parsed : Parsed max_phrases 0 (group_phrases tokens)
  unfolding group_phrases
  group_phrases-Parsed = group_loop-Parsed (length tokens) max_phrases 0 (omega arith)
