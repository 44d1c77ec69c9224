-- ===== src/Ingest/Bonds.antt =====
-- The bonds that `ingest_raw_sequence` (src/core/fpsan_lexer.h) makes between the words of a text, described by
-- the row of words and the two rows that are shifted against it.
use engram_core.Prelude.{
  ℕ, ◌≡◌, ◌≢◌, List, [], ◌∷◌, ◌++◌, ◌==◌, if◌then◌else◌, ℤ, pos, negsuc, minus_one, Text, All,
  length,
}
use engram_core.Prelude.Float.{Float}
use engram_core.Graph.Node.{add_edge, add_inverse_edge, edge_temporal, prov_unknown}
use engram_core.Graph.Arena.{Graph}
use engram_core.Graph.Chain.{modify}
use engram_core.Lexer.Tokenizer.{tokenize}
use engram_core.Ingest.{Brain, edge_next_word, read_tokens}

-- A word and the next one, or a word and the next but one.
pub data Bond : Type 0 where
  next : ℕ → ℕ → Bond
  skip : ℕ → ℕ → Bond

abbrev pub IsProper : Bond → Type 0
IsProper (next a b) = a ≢ b
IsProper (skip a b) = a ≢ b

-- The tokens that stand for a word.
abbrev pub words : List ℤ → List ℤ
words [] = []
words (negsuc i ∷ ids) = words ids
words (pos id ∷ ids) = pos id ∷ words ids

abbrev pub skips : ℤ → ℤ → List Bond
skips (pos a) (pos c) = if a == c then [] else skip a c ∷ []
skips a c = []

-- Three words in a row, the first two of which may be missing: the middle one is bound to the last
-- unless they are the same word, and only then the first one, on the same condition.
abbrev pub bonds_at : ℤ → ℤ → ℤ → List Bond
bonds_at a (pos b) (pos c) = if b == c then [] else next b c ∷ skips a (pos c)
bonds_at a b c = []

-- The bonds of three rows, position by position.
abbrev pub bonds_in : List ℤ → List ℤ → List ℤ → List Bond
bonds_in (a ∷ two_ago) (b ∷ one_ago) (c ∷ row) = bonds_at a b c ++ bonds_in two_ago one_ago row
bonds_in two_ago one_ago row = []

-- The row of words, behind the row one later and the row two later.
abbrev pub bonds_of : List ℤ → List Bond
bonds_of row = bonds_in (minus_one ∷ minus_one ∷ row) (minus_one ∷ row) row

module _ {F : Float} where
  abbrev pub tie : Bond → Graph F → Graph F
  tie (next a b) g =
      modify b (add_inverse_edge (pos a) (F.lit 3 10) edge_next_word)
        (modify a (add_edge (pos b) (F.lit 3 10) edge_next_word prov_unknown) g)
  tie (skip a b) g = modify a (add_edge (pos b) (F.lit 15 100) edge_temporal prov_unknown) g

  abbrev pub tie_all : List Bond → Graph F → Graph F
  tie_all [] g = g
  tie_all (b ∷ bs) g = tie_all bs (tie b g)

module _ {F : Float} where
  -- The same edge arrays: what voltage leaves alone.
  pub record SameEdges (g h : Graph F) : Type 0 where
    pub forward : (i : ℕ) → (h.cortex_memory i).edges ≡ (g.cortex_memory i).edges
    pub backward : (i : ℕ) → (h.cortex_memory i).inverse_edges ≡ (g.cortex_memory i).inverse_edges

  -- What is left when the tokens of a text have been read, and the bonds have been made: the bonds are
  -- those of the row of ids that reading gave, and reading left all edges as they were.
  abbrev pub Bonded : Text → Brain F → Brain F × ℕ → Type 0
  Bonded text b (b', made) =
      let read = read_tokens (tokenize b.lexicon text) b in
      let bonds = bonds_of (words read.0) in
      SameEdges b.graph read.1.graph
      × (length read.0 ≡ length (tokenize b.lexicon text))
      × (b'.graph ≡ tie_all bonds read.1.graph)
      × (made ≡ length bonds)
      × All IsProper bonds
