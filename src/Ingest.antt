-- ===== src/Ingest.antt =====
-- How the lexer feeds text to the brain (src/core/fpsan_lexer.h): `ingest_raw_sequence`, over the lexicon, the
-- language cortex and the graph.
pub mod Sound
pub mod Bonds
use Prim.Native.String.{String}
use engram_core.Prelude.{
  ℕ, zero, suc, ◌+◌, List, [], ◌∷◌, Bool, true, false, ◌||◌, not, Option, none, some, ◌==◌,
  if◌then◌else◌, ℤ, pos, negsuc, minus_one, Text, codes, same_text,
}
use engram_core.Prelude.Float.{Float}
use engram_core.GoalGate.{contains}
use engram_core.Graph.Node.{add_edge, add_inverse_edge, edge_temporal, prov_unknown}
use engram_core.Graph.Arena.{Graph}
use engram_core.Graph.Chain.{modify}
use engram_core.Memory.{Cluster}
use engram_core.Language.{encode_word_hash, perceive}
use engram_core.Lexer.{Lexicon, insert, pos_unknown, pos_noun, pos_punct}
use engram_core.Lexer.Tokenizer.{Token, tokenize}
use engram_core.Lexer.Dictionary.{pos_code}
use engram_core.Lexer.Spelling.{spike_levenshtein_neighbors}

abbrev pub edge_next_word : ℕ
edge_next_word = 7

abbrev one_of : Text → List String → Bool
one_of t [] = false
one_of t (w ∷ ws) = same_text t (codes w) || one_of t ws

abbrev is_definer : Text → Bool
is_definer t = one_of t ("def" ∷ "class" ∷ "import" ∷ "return" ∷ [])

abbrev is_operator : Text → Bool
is_operator t = starts t || (contains (codes "->") t || contains (codes "::") t)
  where
    starts : Text → Bool
    starts [] = false
    starts (c ∷ rest) =
        one_of (c ∷ []) ("(" ∷ ")" ∷ "{" ∷ "}" ∷ "=" ∷ ":" ∷ "*" ∷ "&" ∷ ";" ∷ "<" ∷ ">" ∷ [])

abbrev is_syntax : Text → Bool
is_syntax t = one_of t (
    "int" ∷ "void" ∷ "const" ∷ "bool" ∷ "char" ∷ "float" ∷ "auto" ∷ "nullptr" ∷ "true" ∷ "false"
    ∷ "if" ∷ "else" ∷ "for" ∷ "while" ∷ "struct" ∷ [])

-- The tag of a token, and the lexicon, which learns the words that it did not know.
unfoldable pub tag_raw : Token → Lexicon → ℕ × Lexicon
tag_raw t l =
    if not (t.tag == pos_unknown)
    then (t.tag, l)
    else if is_definer t.text
    then (pos_code, insert t.text pos_code l)
    else if is_operator t.text
    then (pos_punct, l)
    else if is_syntax t.text
    then (pos_code, l)
    else (pos_noun, insert t.text pos_noun l)

-- What `ingest_raw_sequence` works on.
pub record Brain (F : Float) : Type 0 where
  pub lexicon : Lexicon
  pub clusters : ℕ → Cluster F
  pub graph : Graph F

abbrev pub id_or_none : Option ℕ → ℤ
id_or_none none = minus_one
id_or_none (some i) = pos i

module _ {F : Float} where
  -- A word that no cluster stands for wakes the words that are spelt like it.
  unfoldable pub resonate : Text → Option ℕ → (ℕ → Cluster F) → Graph F → Graph F
  resonate text (some i) clusters g = g
  resonate text none clusters g = (spike_levenshtein_neighbors text clusters (F.lit 8 10) 3 g).0

  -- One round of the loop over the tokens: the cluster of the token.
  unfoldable pub read_token : Token → Brain F → ℤ × Brain F
  read_token t b =
      let (tag, l) = tag_raw t b.lexicon in
      let (clusters, found) = perceive (encode_word_hash t.text) true (some t.text) b.clusters in
      if tag == pos_punct || tag == pos_code then (t.cluster_id, record b { lexicon = l }) else (
        id_or_none found,
        record { lexicon = l; clusters = clusters; graph = resonate t.text found clusters b.graph },
      )

  unfoldable pub read_tokens : List Token → Brain F → List ℤ × Brain F
  read_tokens [] b = ([], b)
  read_tokens (t ∷ tokens) b =
      let (id, b') = read_token t b in let (ids, last) = read_tokens tokens b' in (id ∷ ids, last)

  -- The bond over a word, from the word before the last one.
  unfoldable pub skip_gram : ℤ → ℕ → Graph F → Graph F × ℕ
  skip_gram (negsuc _) id g = (g, 0)
  skip_gram (pos before) id g =
      if before == id
      then (g, 0)
      else (modify before (add_edge (pos id) (F.lit 15 100) edge_temporal prov_unknown) g, 1)

  -- The bonds of a word with the words before it, and how many were made.
  unfoldable pub bond_word : ℤ → ℤ → ℕ → Graph F → Graph F × ℕ
  bond_word (negsuc _) before id g = (g, 0)
  bond_word (pos prev) before id g =
      let next =
        modify id (add_inverse_edge (pos prev) (F.lit 3 10) edge_next_word)
          (modify prev (add_edge (pos id) (F.lit 3 10) edge_next_word prov_unknown) g) in
      let (h, n) = skip_gram before id next in if prev == id then (g, 0) else (h, n + 1)

  unfoldable pub bond_words : ℤ → ℤ → List ℤ → Graph F → Graph F × ℕ
  bond_words prev before [] g = (g, 0)
  bond_words prev before (negsuc i ∷ ids) g = bond_words prev before ids g
  bond_words prev before (pos id ∷ ids) g =
      let (h, n) = bond_word prev before id g in
      let (last, rest) = bond_words (pos id) prev ids h in (last, n + rest)

  unfoldable pub ingest_raw_sequence : Text → Brain F → Brain F × ℕ
  ingest_raw_sequence text b =
      let (ids, read) = read_tokens (tokenize b.lexicon text) b in
      let (g, bonds) = bond_words minus_one minus_one ids read.graph in
      (record read { graph = g }, bonds)
