-- ===== src/Lexer/Tokens.antt =====
-- What `tokenize` (src/core/fpsan_lexer.h) makes of a sentence.
use engram_core.Prelude.{
  ℕ, ◌≤◌, ◌<◌, ◌≡◌, ◌⊎◌, List, [], ◌∷◌, ◌++◌, Bool, true, ◌||◌, not, length, filterb, All, Text,
}
use engram_core.Lexer.{Lexicon, lookup, pos_punct}
use engram_core.Lexer.Tokenizer.{Token, is_space, is_alnum, in_identifier}

abbrev visible : ℕ → Bool
visible c = not (is_space c)

-- The sentence without its white space.
abbrev pub squeeze : Text → Text
squeeze s = filterb visible s

abbrev pub texts : List Token → Text
texts [] = []
texts (t ∷ tokens) = t.text ++ texts tokens

-- A token is a byte of punctuation, or a word of 1 to 63 bytes with the tag that the lexicon gives it.
abbrev pub IsToken : Lexicon → Token → Type 0
IsToken l t =
    (length t.text ≡ 1) × (t.tag ≡ pos_punct)
    ⊎ (0 < length t.text)
      × (length t.text ≤ 63)
      × All (λ c. (is_alnum c || in_identifier c) ≡ true) t.text
      × (t.tag ≡ lookup t.text l)

-- The tokens cover the sentence from `s` on, up to `left`, which is empty unless the room is used up.
abbrev pub Covers : Lexicon → ℕ → Text → List Token → Type 0
Covers l room s tokens =
    (left : Text) × (texts tokens ++ squeeze left ≡ squeeze s)
    × (length tokens ≤ room)
    × (length tokens < room → squeeze left ≡ [])
    × All (IsToken l) tokens
