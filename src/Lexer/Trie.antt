-- ===== src/Lexer/Trie.antt =====
-- The shape of the trie (src/core/fpsan_lexer.h): each node spells a word, and an edge adds its letter.
use engram_core.Prelude.{
  ℕ, ◌≤◌, ◌<◌, ◌≡◌, ◌∙◌, refl, sym, ap, [], ◌∷◌, ◌++◌, append_assoc, append-nil, Option, none, some,
  if◌then◌else◌, dec_le, Text, arith,
}
use engram_core.Lexer.{TrieNode, Lexicon, fresh_node, pos_unknown, init_lexicon}

-- The path that a row of letters takes.
unfoldable pub path : Text → ℕ → Lexicon → Option ℕ
path [] cur l = some cur
path (c ∷ key) cur l = elim ((l.nodes cur).children c) [ some next ↦ path key next l | none ↦ none ]

abbrev pub value : TrieNode → ℕ
value n = if n.is_terminal then n.tag else pos_unknown

-- What the node at the end of a row of letters holds.
unfoldable pub value_at : Text → ℕ → Lexicon → ℕ
value_at [] cur l = value (l.nodes cur)
value_at (c ∷ key) cur l = elim ((l.nodes cur).children c) [
  | some next ↦ value_at key next l
  | none ↦ pos_unknown
]

pub value_at-some :
    (l : Lexicon) (c : ℕ) (key : Text) (i j : ℕ)
    → (l.nodes i).children c ≡ some j
    → value_at (c ∷ key) i l ≡ value_at key j l
unfolding value_at
value_at-some l c key i j e = rw (e, value_at) refl

pub value_at-none :
    (l : Lexicon) (c : ℕ) (key : Text) (i : ℕ)
    → (l.nodes i).children c ≡ none
    → value_at (c ∷ key) i l ≡ pos_unknown
unfolding value_at
value_at-none l c key i e = rw (e, value_at) refl

-- `spell` gives each node its word; nodes that are not used are fresh.
pub record IsTrie (l : Lexicon) (spell : ℕ → Text) : Type 0 where
  pub root : spell 0 ≡ []
  pub edge :
      (i c j : ℕ)
      → (l.nodes i).children c ≡ some j
      → (spell j ≡ spell i ++ (c ∷ [])) × (j ≤ l.pool_used)
  pub unused : (i : ℕ) → l.pool_used < i → l.nodes i ≡ fresh_node

pub path-spell :
    (l : Lexicon) (spell : ℕ → Text)
    → IsTrie l spell
    → (key : Text) (i j : ℕ) → path key i l ≡ some j
    → spell j ≡ spell i ++ key
unfolding path
path-spell l spell trie [] i j e =
    let same : i ≡ j = cc in sym (ap spell same) ∙ sym (append-nil (spell i))
path-spell l spell trie (c ∷ key) i j e =
    go ((l.nodes i).children c) refl e (λ k h. path-spell l spell trie key k j h)
  where
    go :
        (o : Option ℕ)
        → (l.nodes i).children c ≡ o
        → (elim o as (λ x. Option ℕ) [ some next ↦ path key next l | none ↦ none ]) ≡ some j
        → ((k : ℕ) → path key k l ≡ some j → spell j ≡ spell k ++ key)
        → spell j ≡ spell i ++ (c ∷ key)
    go none q h later = cc
    go (some k) q h later =
        later k h ∙ ap (λ w. w ++ key) (trie.edge i c k q).0 ∙ append_assoc (spell i) (c ∷ []) key

-- Edges leave only nodes that are used.
pub edge_known :
    (l : Lexicon) (spell : ℕ → Text)
    → IsTrie l spell
    → (i c j : ℕ) → (l.nodes i).children c ≡ some j
    → i ≤ l.pool_used
edge_known l spell trie i c j e = elim (dec_le i l.pool_used) [
  | yes le ↦ le
  | no gt ↦
      let fresh : (l.nodes i).children c ≡ none =
        ap (λ (n : TrieNode). n.children c) (trie.unused i (omega arith)) in
      cc
]

pub init-IsTrie : (max_nodes : ℕ) → IsTrie (init_lexicon max_nodes) (λ i. [])
unfolding init_lexicon
init-IsTrie max_nodes = record { root = refl; edge = λ i c j e. cc; unused = λ i h. refl }
