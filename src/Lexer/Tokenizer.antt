-- ===== src/Lexer/Tokenizer.antt =====
-- `tokenize` of the lexer (src/core/fpsan_lexer.h).
use engram_core.Prelude.{
  ℕ, zero, suc, List, [], ◌∷◌, Bool, ◌&&◌, ◌||◌, not, leb, ◌==◌, if◌then◌else◌, ℤ, minus_one, Text,
}
use engram_core.Lexer.{Lexicon, lookup, pos_punct}

-- `isspace`, `isalnum` and `ispunct` of a byte in the C locale.
unfoldable pub is_space : ℕ → Bool
is_space c = c == b' ' || (leb 9 c && leb c 13)

unfoldable pub is_alnum : ℕ → Bool
is_alnum c =
    (leb b'0' c && leb c b'9') || ((leb b'A' c && leb c b'Z') || (leb b'a' c && leb c b'z'))

unfoldable pub is_punct : ℕ → Bool
is_punct c = leb 33 c && (leb c 126 && not (is_alnum c))

-- The apostrophe, the hyphen and the underscore.
unfoldable pub in_identifier : ℕ → Bool
in_identifier c = c == 39 || (c == b'-' || c == b'_')

pub record Token : Type 0 where
  pub text : Text
  pub tag : ℕ
  pub cluster_id : ℤ

abbrev pub max_tokens : ℕ
max_tokens = 128

unfoldable pub skip_space : Text → Text
skip_space [] = []
skip_space (c ∷ s) = let rest = skip_space s in if is_space c then rest else c ∷ s

-- The bytes of a word, at most `room`, and what follows it.
unfoldable pub take_word : ℕ → Text → Text × Text
take_word zero s = ([], s)
take_word (suc room) [] = ([], [])
take_word (suc room) (c ∷ s) =
    let (word, rest) = take_word room s in
    if is_space c
    then ([], c ∷ s)
    else if is_alnum c || in_identifier c
    then (c ∷ word, rest)
    else ([], c ∷ s)

abbrev pub punct_token : ℕ → Token
punct_token c = record { text = c ∷ []; tag = pos_punct; cluster_id = minus_one }

abbrev pub word_token : Lexicon → Text → Token
word_token l word = record { text = word; tag = lookup word l; cluster_id = minus_one }

-- The word that was read at the byte `c`, or where it is empty the byte alone.
unfoldable pub word_or_byte : Lexicon → ℕ → Text → Text → Text → Token × Text
word_or_byte l c rest [] left = (punct_token c, rest)
word_or_byte l c rest (b ∷ word) left = (word_token l (b ∷ word), left)

-- One round of `tokenize` at the byte `c`, which is not a space.
unfoldable pub next_token : Lexicon → ℕ → Text → Token × Text
next_token l c rest =
    let (word, left) = take_word 63 (c ∷ rest) in
    if is_punct c && not (in_identifier c)
    then (punct_token c, rest)
    else word_or_byte l c rest word left

unfoldable pub tokenize_loop : Lexicon → ℕ → Text → List Token
tokenize_loop l zero s = []
tokenize_loop l (suc room) s = elim (skip_space s) [
  | [] ↦ []
  | c ∷ rest ↦ let (t, left) = next_token l c rest in t ∷ tokenize_loop l room left
]

unfoldable pub tokenize : Lexicon → Text → List Token
tokenize l sentence = tokenize_loop l max_tokens sentence
