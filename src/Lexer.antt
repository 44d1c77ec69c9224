-- ===== src/Lexer.antt =====
-- The lexer (src/core/fpsan_lexer.h): the tags and the trie of known words. The root is
-- node 0 of the store and pool[i] is node i + 1; a null child is none.
pub mod Tokenizer
pub mod Grouper
pub mod Trie
pub mod Alloc
pub mod Known
pub mod Insert
pub mod Dictionary
pub mod Core
pub mod Spelling
pub mod EditDistance
pub mod Tokens
pub mod Grammar
pub mod Matched
pub mod Phrases
use engram_core.Prelude.{
  ℕ, zero, suc, ◌+◌, ◌-◌, List, [], ◌∷◌, drop, length, get_elem?, update, Bool, true, false, ◌&&◌,
  ◌||◌, not, Option, none, some, ltb, leb, ◌==◌, if◌then◌else◌, ℤ, minus_one, Text,
}
use engram_core.GoalGate.{to_lower}

abbrev pub pos_unknown : ℕ
pos_unknown = 0

abbrev pub pos_noun : ℕ
pos_noun = 1

abbrev pub pos_verb : ℕ
pos_verb = 2

abbrev pub pos_adj : ℕ
pos_adj = 3

abbrev pub pos_det : ℕ
pos_det = 4

abbrev pub pos_adv : ℕ
pos_adv = 6

abbrev pub pos_pron : ℕ
pos_pron = 7

abbrev pub pos_punct : ℕ
pos_punct = 9

abbrev pub pos_aux : ℕ
pos_aux = 10

pub record TrieNode : Type 0 where
  pub children : ℕ → Option ℕ
  pub tag : ℕ
  pub is_terminal : Bool

pub record Lexicon : Type 0 where
  pub nodes : ℕ → TrieNode
  pub pool_size : ℕ
  pub pool_used : ℕ
  pub word_count : ℕ

abbrev pub fresh_node : TrieNode
fresh_node = record { children = λ k. none; tag = pos_unknown; is_terminal = false }

unfoldable pub init_lexicon : ℕ → Lexicon
init_lexicon max_nodes = record {
  nodes = λ i. fresh_node;
  pool_size = max_nodes;
  pool_used = 0;
  word_count = 0;
}

-- `cur->children[c] = alloc_node()`, where there is a node left.
unfoldable pub alloc_child : ℕ → ℕ → Lexicon → Lexicon
alloc_child cur c l =
    let node = l.nodes cur in
    record l {
      nodes =
          update l.nodes cur
            (record node { children = update node.children c (some (suc l.pool_used)) });
      pool_used = suc l.pool_used;
    }

-- The loop of `insert`: the node that it ends in, or none where the pool is exhausted.
unfoldable pub insert_walk : Text → ℕ → Lexicon → Lexicon × Option ℕ
insert_walk [] cur l = (l, some cur)
insert_walk (b ∷ word) cur l = elim (leb 128 (to_lower b)) [
  | true ↦ insert_walk word cur l
  | false ↦ elim ((l.nodes cur).children (to_lower b)) [
    | some next ↦ insert_walk word next l
    | none ↦ elim (ltb l.pool_used l.pool_size) [
      | true ↦ insert_walk word (suc l.pool_used) (alloc_child cur (to_lower b) l)
      | false ↦ (l, none)
    ]
  ]
]

unfoldable pub set_word : ℕ → ℕ → Lexicon → Lexicon
set_word cur tag l = record l {
  nodes = update l.nodes cur (record (l.nodes cur) { is_terminal = true; tag = tag });
  word_count = suc l.word_count;
}

unfoldable pub insert : Text → ℕ → Lexicon → Lexicon
insert word tag l =
    let (walked, end) = insert_walk word 0 l in
    elim end [ none ↦ walked | some cur ↦ set_word cur tag walked ]

unfoldable pub lookup_from : Text → ℕ → Lexicon → ℕ
lookup_from [] cur l = if (l.nodes cur).is_terminal then (l.nodes cur).tag else pos_unknown
lookup_from (b ∷ word) cur l = elim (leb 128 (to_lower b)) [
  | true ↦ pos_unknown
  | false ↦ elim ((l.nodes cur).children (to_lower b)) [
    | some next ↦ lookup_from word next l
    | none ↦ pos_unknown
  ]
]

unfoldable pub lookup : Text → Lexicon → ℕ
lookup word l = lookup_from word 0 l
