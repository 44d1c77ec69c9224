-- ===== src/Lexer/Grouper.antt =====
-- `group_phrases` of the lexer (src/core/fpsan_lexer.h).
use engram_core.Prelude.{
  ℕ, zero, suc, ◌+◌, List, [], ◌∷◌, drop, length, Bool, true, false, ◌||◌, Option, none, some, ltb,
  ◌==◌, if◌then◌else◌, ℤ, minus_one,
}
use engram_core.Lexer.{pos_adj, pos_adv, pos_aux, pos_det, pos_noun, pos_pron, pos_punct, pos_verb}
use engram_core.Lexer.Tokenizer.{Token}

abbrev pub phrase_np : ℕ
phrase_np = 0

abbrev pub phrase_vp : ℕ
phrase_vp = 1

pub record Phrase : Type 0 where
  pub kind : ℕ
  pub head_token : ℕ
  pub start_token : ℕ
  pub end_token : ℕ
  pub cluster_id : ℤ

abbrev pub max_phrases : ℕ
max_phrases = 32

abbrev pub phrase : ℕ → ℕ → ℕ → Phrase
phrase kind start head = record {
  kind = kind;
  head_token = head;
  start_token = start;
  end_token = head + 1;
  cluster_id = minus_one;
}

-- `i < n_tokens && tokens[i].tag == tag`.
unfoldable pub tag_at : List Token → ℕ → ℕ → Bool
tag_at [] tag i = false
tag_at (t ∷ tokens) tag zero = t.tag == tag
tag_at (t ∷ tokens) tag (suc i) = tag_at tokens tag i

-- How far `while (i < n_tokens && tokens[i].tag == tag) i++` gets in the tokens from `i` on.
unfoldable pub run_of : ℕ → List Token → ℕ
run_of tag [] = 0
run_of tag (t ∷ tokens) = let rest = run_of tag tokens in if t.tag == tag then suc rest else 0

-- What was matched at `start`, and where to go on.
unfoldable pub noun_phrase : List Token → ℕ → Option Phrase × ℕ
noun_phrase tokens start =
    let i = if tag_at tokens pos_det start then start + 1 else start in
    let head = i + run_of pos_adj (drop i tokens) in
    if tag_at tokens pos_noun head || tag_at tokens pos_pron head
    then (some (phrase phrase_np start head), head + 1)
    else if ltb start head
    then (none, start + 1)
    else if tag_at tokens pos_pron start
    then (some (phrase phrase_np start start), start + 1)
    else (none, start + 1)

unfoldable pub verb_phrase : List Token → ℕ → Option Phrase × ℕ
verb_phrase tokens start =
    let i = if tag_at tokens pos_aux start then start + 1 else start in
    let head = i + run_of pos_adv (drop i tokens) in
    if tag_at tokens pos_verb head
    then (some (phrase phrase_vp start head), head + 1)
    else if tag_at tokens pos_verb start
    then (some (phrase phrase_vp start start), start + 1)
    else if tag_at tokens pos_aux start
    then (some (phrase phrase_vp start start), start + 1)
    else (none, start + 1)

unfoldable pub phrase_step : List Token → ℕ → Option Phrase × ℕ
phrase_step tokens i =
    if tag_at tokens pos_punct i
    then (none, i + 1)
    else if tag_at tokens pos_det i
        || (tag_at tokens pos_adj i || (tag_at tokens pos_noun i || tag_at tokens pos_pron i))
    then noun_phrase tokens i
    else if tag_at tokens pos_aux i || (tag_at tokens pos_adv i || tag_at tokens pos_verb i)
    then verb_phrase tokens i
    else (none, i + 1)

-- `room` is MAX_PHRASES less the phrases so far; `rounds` bounds the rounds of the loop.
unfoldable pub group_loop : List Token → ℕ → ℕ → ℕ → List Phrase
group_loop tokens zero room i = []
group_loop tokens (suc rounds) zero i = []
group_loop tokens (suc rounds) (suc room) i =
    let (found, next) = phrase_step tokens i in
    elim (ltb i (length tokens)) [
      | false ↦ []
      | true ↦ elim found [
        | none ↦ group_loop tokens rounds (suc room) next
        | some p ↦ p ∷ group_loop tokens rounds room next
      ]
    ]

-- A round moves on by a token at least, so that there are no more rounds than tokens.
unfoldable pub group_phrases : List Token → List Phrase
group_phrases tokens = group_loop tokens (length tokens) max_phrases 0
