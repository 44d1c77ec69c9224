-- ===== src/Lexer/Grammar.antt =====
-- The phrases that `group_phrases` (src/core/fpsan_lexer.h) looks for, and their content.
use engram_core.Prelude.{
  ℕ, zero, suc, ◌+◌, ◌≤◌, ◌<◌, ◌≡◌, ◌∙◌, refl, ap, ◌⊎◌, inl, inr, List, [], ◌∷◌, drop, length, true,
  false, if◌then◌else◌, Bool-cases, dec_lt, arith,
}
use engram_core.Lexer.{pos_noun, pos_verb, pos_adj, pos_det, pos_adv, pos_pron, pos_aux}
use engram_core.Lexer.Tokenizer.{Token}
use engram_core.Lexer.Grouper.{Phrase, phrase_np, phrase_vp, tag_at, run_of}

pub tag_at_lt : (tokens : List Token) (tag i : ℕ) → tag_at tokens tag i ≡ true → i < length tokens
unfolding tag_at
tag_at_lt [] tag i h = cc
tag_at_lt (t ∷ tokens) tag zero h = omega arith
tag_at_lt (t ∷ tokens) tag (suc i) h = omega (arith, tag_at_lt tokens tag i h)

tag_at_unique :
    (tokens : List Token) (a b i : ℕ) → tag_at tokens a i ≡ true → tag_at tokens b i ≡ true → a ≡ b
unfolding tag_at
tag_at_unique [] a b i p q = cc
tag_at_unique (t ∷ tokens) a b zero p q = ground arith
tag_at_unique (t ∷ tokens) a b (suc i) p q = tag_at_unique tokens a b i p q

pub tag_at_ne :
    (tokens : List Token) (a b i : ℕ)
    → tag_at tokens a i ≡ true
    → (a ≡ b → ⊥)
    → tag_at tokens b i ≡ false
tag_at_ne tokens a b i h ne = elim (Bool-cases (tag_at tokens b i)) [
  | inl same ↦ absurd (ne (tag_at_unique tokens a b i h same))
  | inr other ↦ other
]

run_of_lem :
    (tokens : List Token) (tag i j : ℕ)
    → i ≤ j
    → j < i + run_of tag (drop i tokens)
    → tag_at tokens tag j ≡ true
unfolding tag_at run_of
run_of_lem [] tag zero j le lt = absurd (omega arith)
run_of_lem [] tag (suc i) j le lt = absurd (omega arith)
run_of_lem (t ∷ tokens) tag zero zero le lt = ground arith
run_of_lem (t ∷ tokens) tag zero (suc j) le lt =
    run_of_lem tokens tag zero j (omega arith) (ground arith)
run_of_lem (t ∷ tokens) tag (suc i) zero le lt = absurd (omega arith)
run_of_lem (t ∷ tokens) tag (suc i) (suc j) le lt =
    run_of_lem tokens tag i j (omega arith) (omega arith)

module _ (tokens : List Token) where
  -- From `start` up to `head` the tokens are `more`, except that the first one may be `first`.
  abbrev pub Before : ℕ → ℕ → ℕ → ℕ → Type 0
  Before first more start head =
      (j : ℕ)
      → start ≤ j
      → j < head
      → (j ≡ start) × (tag_at tokens first j ≡ true) ⊎ (tag_at tokens more j ≡ true)

  -- A determiner and adjectives, both optional, and a noun or pronoun.
  abbrev pub NounPhrase : Phrase → Type 0
  NounPhrase p =
      (p.kind ≡ phrase_np)
      × Before pos_det pos_adj p.start_token p.head_token
      × ((tag_at tokens pos_noun p.head_token ≡ true)
          ⊎ (tag_at tokens pos_pron p.head_token ≡ true))

  -- An auxiliary and adverbs, both optional, and a verb; or an auxiliary alone.
  abbrev pub VerbPhrase : Phrase → Type 0
  VerbPhrase p =
      (p.kind ≡ phrase_vp)
      × Before pos_aux pos_adv p.start_token p.head_token
      × ((tag_at tokens pos_verb p.head_token ≡ true)
          ⊎ (p.head_token ≡ p.start_token) × (tag_at tokens pos_aux p.head_token ≡ true))

  pub record IsPhrase (p : Phrase) : Type 0 where
    pub ends : p.end_token ≡ p.head_token + 1
    pub starts : p.start_token ≤ p.head_token
    pub within : p.end_token ≤ length tokens
    pub form : NounPhrase p ⊎ VerbPhrase p

  -- A noun, a pronoun or a verb.
  abbrev pub Content : ℕ → Type 0
  Content j =
      (tag_at tokens pos_noun j ≡ true)
      ⊎ ((tag_at tokens pos_pron j ≡ true) ⊎ (tag_at tokens pos_verb j ≡ true))

  abbrev pub Headed : ℕ → List Phrase → Type 0
  Headed j [] = ⊥
  Headed j (p ∷ ps) = (p.head_token ≡ j) ⊎ Headed j ps

  -- The phrases follow each other from `i` on.
  abbrev pub InOrder : ℕ → List Phrase → Type 0
  InOrder i [] = Unit
  InOrder i (p ∷ ps) = (i ≤ p.start_token) × IsPhrase p × InOrder p.end_token ps

  -- Content that is not `a` and not `b`.
  pub no-Content :
      (j tag : ℕ)
      → tag_at tokens tag j ≡ true
      → (tag ≡ pos_noun → ⊥)
      → (tag ≡ pos_pron → ⊥)
      → (tag ≡ pos_verb → ⊥)
      → Content j
      → ⊥
  no-Content j tag h n p v (inl c) = n (tag_at_unique tokens tag pos_noun j h c)
  no-Content j tag h n p v (inr (inl c)) = p (tag_at_unique tokens tag pos_pron j h c)
  no-Content j tag h n p v (inr (inr c)) = v (tag_at_unique tokens tag pos_verb j h c)

  -- Where the scan of a phrase stands after its first token and the run after it.
  abbrev pub head_from : ℕ → ℕ → ℕ → ℕ
  head_from first more start =
      let i = if tag_at tokens first start then start + 1 else start in
      i + run_of more (drop i tokens)

  pub head_from-Before :
      (first more start : ℕ) → Before first more start (head_from first more start)
  head_from-Before first more start j le lt = elim (Bool-cases (tag_at tokens first start)) [
    | inr other ↦ inr (run_of_lem tokens more start j le (ground arith))
    | inl found ↦ elim (dec_lt start j) [
      | yes after ↦ inr (run_of_lem tokens more (start + 1) j (omega arith) (ground arith))
      | no at ↦
          let here : j ≡ start = omega arith in
          inl (here, ap (λ k. tag_at tokens first k) here ∙ found)
    ]
  ]

  pub head_from-le : (first more start : ℕ) → start ≤ head_from first more start
  head_from-le first more start = ground arith

  -- In a run of `first` and `more` there is no content, if these are no tags of content.
  pub Before-Content :
      (first more start head : ℕ)
      → Before first more start head
      → ((tag j : ℕ) → (tag ≡ first) ⊎ (tag ≡ more) → tag_at tokens tag j ≡ true → Content j → ⊥)
      → (j : ℕ) → start ≤ j
      → j < head
      → Content j
      → ⊥
  Before-Content first more start head before free j le lt c = elim (before j le lt) [
    | inl one ↦ free first j (inl refl) one.1 c
    | inr other ↦ free more j (inr refl) other c
  ]

  pub det_free :
      (tag j : ℕ) → (tag ≡ pos_det) ⊎ (tag ≡ pos_adj) → tag_at tokens tag j ≡ true → Content j → ⊥
  det_free tag j (inl e) h c =
      no-Content j tag h (λ q. omega arith) (λ q. omega arith) (λ q. omega arith) c
  det_free tag j (inr e) h c =
      no-Content j tag h (λ q. omega arith) (λ q. omega arith) (λ q. omega arith) c

  pub aux_free :
      (tag j : ℕ) → (tag ≡ pos_aux) ⊎ (tag ≡ pos_adv) → tag_at tokens tag j ≡ true → Content j → ⊥
  aux_free tag j (inl e) h c =
      no-Content j tag h (λ q. omega arith) (λ q. omega arith) (λ q. omega arith) c
  aux_free tag j (inr e) h c =
      no-Content j tag h (λ q. omega arith) (λ q. omega arith) (λ q. omega arith) c

  -- All content of a phrase is its head.
  pub Content-head :
      (p : Phrase)
      → IsPhrase p
      → (j : ℕ) → p.start_token ≤ j
      → j < p.end_token
      → Content j
      → p.head_token ≡ j
  Content-head p is j le lt c = elim (dec_lt j p.head_token) [
    | no at ↦ omega (arith, is.ends)
    | yes early ↦ absurd (elim is.form [
      | inl np ↦
          Before-Content pos_det pos_adj p.start_token p.head_token np.1 det_free j le early c
      | inr vp ↦
          Before-Content pos_aux pos_adv p.start_token p.head_token vp.1 aux_free j le early c
    ])
  ]
