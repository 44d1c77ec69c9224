-- ===== src/Tests/Lexer.antt =====
-- The lexer (src/core/fpsan_lexer.h) at concrete inputs.
use engram_core.Prelude.{ℕ, ◌≡◌, refl, List, [], ◌∷◌, Text, codes, arith, minus_one, same_text}
use engram_core.Lexer.{
  init_lexicon, insert, lookup, pos_noun, pos_det, pos_verb, pos_adj, pos_unknown,
}
use engram_core.Lexer.Tokenizer.{Token}
use engram_core.Lexer.Grouper.{group_phrases, max_phrases}
use engram_core.Lexer.Trie.{init-IsTrie}
use engram_core.Lexer.Spelling.{levenshtein_dist}
use engram_core.Lexer.EditDistance.{Distance, levenshtein_dist-Distance}
use engram_core.Lexer.Insert.{Inserted, insert-Inserted}
use engram_core.Lexer.Dictionary.{
  init, load_dictionary, entries, fgets, parse_line, after, tag_of_text, before, core_words,
  pos_conj,
}
use engram_core.Lexer.Core.{last_tag, load_dictionary-last_tag}
use engram_core.Lexer.Phrases.{Parsed, group_phrases-Parsed}

insert-Inserted_example :
    Inserted
      (codes "cat")
      pos_noun
      (init_lexicon 10)
      (insert (codes "cat") pos_noun (init_lexicon 10))
insert-Inserted_example =
    insert-Inserted (init_lexicon 10) (λ i. []) (init-IsTrie 10) (codes "cat") pos_noun

load_dictionary-last_tag_example :
    lookup (codes "otter") (load_dictionary (codes "otter,NOUN\n") init).0 ≡ pos_noun
unfolding entries fgets parse_line after tag_of_text same_text before
load_dictionary-last_tag_example =
    load_dictionary-last_tag (codes "otter,NOUN\n") (omega arith) (codes "otter")

abbrev token : Text → ℕ → Token
token text tag = record { text = text; tag = tag; cluster_id = minus_one }

abbrev otter_swims : List Token
otter_swims =
    token (codes "the") pos_det
    ∷ token (codes "quick") pos_adj
    ∷ token (codes "otter") pos_noun
    ∷ token (codes "swims") pos_verb
    ∷ []

group_phrases-Parsed_example : Parsed otter_swims max_phrases 0 (group_phrases otter_swims)
group_phrases-Parsed_example = group_phrases-Parsed otter_swims

-- "that" is listed as a determiner first and as a conjunction later.
that_is_conj : last_tag core_words pos_unknown (codes "that") ≡ pos_conj
unfolding core_words same_text
that_is_conj = refl

levenshtein_dist-Distance_example :
    Distance (codes "otter") (codes "oter") (levenshtein_dist (codes "otter") (codes "oter"))
levenshtein_dist-Distance_example = levenshtein_dist-Distance (codes "otter") (codes "oter")
