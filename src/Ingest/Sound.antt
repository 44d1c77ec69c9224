-- ===== src/Ingest/Sound.antt =====
-- `ingest_raw_sequence` (src/core/fpsan_lexer.h) keeps the parts of the brain sound.
use engram_core.Prelude.{
  ℕ, zero, suc, ◌∙◌, sym, ap, subst, inl, inr, List, [], ◌∷◌, true, not, ◌||◌, Option, none, some,
  ltb, ◌==◌, Bool-cases, ℕ_discrete, ℤ, pos, negsuc, minus_one, update, update_self, update_ne,
  Text,
}
use engram_core.Prelude.Float.{Float, IsOrder}
use engram_core.Graph.Node.{Node, add_voltage, prov_unknown}
use engram_core.Graph.AddEdge.{IsSoundNode, add_edge-IsSoundNode}
use engram_core.Graph.Arena.{Graph}
use engram_core.Graph.Chain.{modify}
use engram_core.Memory.{Cluster}
use engram_core.Language.{encode_word_hash}
use engram_core.Language.Frame.{IsCluster, perceive-Settled}
use engram_core.Lexer.{Lexicon, insert, pos_noun, pos_punct, pos_unknown}
use engram_core.Lexer.Tokenizer.{Token, tokenize}
use engram_core.Lexer.Dictionary.{pos_code}
use engram_core.Lexer.Trie.{IsTrie}
use engram_core.Lexer.Insert.{insert-Inserted}
use engram_core.Lexer.Spelling.{spike_all, spike_levenshtein_neighbors}
use engram_core.Ingest.{
  Brain, is_definer, is_operator, is_syntax, tag_raw, resonate, read_token, read_tokens, skip_gram,
  bond_word, bond_words, ingest_raw_sequence,
}

abbrev pub Spells : Lexicon → Type 0
Spells l = (spell : ℕ → Text) × IsTrie l spell

insert-Spells : (word : Text) (tag : ℕ) (l : Lexicon) → Spells l → Spells (insert word tag l)
insert-Spells word tag l (spell, trie) = (insert-Inserted l spell trie word tag).0

tag_raw-Spells : (t : Token) (l : Lexicon) → Spells l → Spells (tag_raw t l).1
unfolding tag_raw
tag_raw-Spells t l s = elim (Bool-cases (not (t.tag == pos_unknown))) [
  | inl tagged ↦ rw tagged s
  | inr unknown ↦ elim (Bool-cases (is_definer t.text)) [
    | inl definer ↦ rw (unknown, definer) (insert-Spells t.text pos_code l s)
    | inr word ↦ elim (Bool-cases (is_operator t.text)) [
      | inl operator ↦ rw (unknown, word, operator) s
      | inr plain ↦ elim (Bool-cases (is_syntax t.text)) [
        | inl syntax ↦ rw (unknown, word, plain, syntax) s
        | inr open_class ↦ rw (unknown, word, plain, open_class) (insert-Spells t.text pos_noun l s)
      ]
    ]
  ]
]

module _ {F : Float} where
  abbrev pub AllSound : Graph F → Type 0
  AllSound g = (i : ℕ) → IsSoundNode (g.cortex_memory i)

  modify-AllSound :
      (i : ℕ) (f : Node F → Node F) (g : Graph F)
      → ((n : Node F) → IsSoundNode n → IsSoundNode (f n))
      → AllSound g
      → AllSound (modify i f g)
  unfolding modify
  modify-AllSound i f g keeps sound j = elim (ℕ_discrete j i) [
    | yes same ↦
        subst IsSoundNode
          (sym (
            ap (update g.cortex_memory i (f (g.cortex_memory i))) same
            ∙ update_self g.cortex_memory i (f (g.cortex_memory i))))
          (keeps (g.cortex_memory i) (sound i))
    | no other ↦ subst IsSoundNode (sym (update_ne g.cortex_memory i j _ other)) (sound j)
  ]

  voltage_keeps : (v : F.Carrier) (n : Node F) → IsSoundNode n → IsSoundNode (add_voltage v n)
  unfolding add_voltage
  voltage_keeps v n s = record { forward = s.forward; backward = s.backward }

  spike_all-AllSound :
      (v : F.Carrier) (left : ℕ) (ids : List ℕ) (g : Graph F)
      → AllSound g
      → AllSound (spike_all v left ids g).0
  unfolding spike_all
  spike_all-AllSound v zero ids g h = h
  spike_all-AllSound v (suc left) [] g h = h
  spike_all-AllSound v (suc left) (id ∷ ids) g h =
      let raised = modify id (add_voltage v) g in
      let sound = modify-AllSound id (add_voltage v) g (voltage_keeps v) h in
      elim (Bool-cases (ltb id g.node_count)) [
        | inl known ↦ rw known (spike_all-AllSound v left ids raised sound)
        | inr unknown ↦ rw unknown (spike_all-AllSound v (suc left) ids g h)
      ]

  resonate-AllSound :
      (text : Text) (found : Option ℕ) (clusters : ℕ → Cluster F) (g : Graph F)
      → AllSound g
      → AllSound (resonate text found clusters g)
  unfolding resonate spike_levenshtein_neighbors
  resonate-AllSound text (some i) clusters g h = h
  resonate-AllSound text none clusters g h = spike_all-AllSound _ _ _ g h

  skip_gram-AllSound :
      IsOrder F
      → (before : ℤ) (id : ℕ) (g : Graph F) → AllSound g
      → AllSound (skip_gram before id g).0
  unfolding skip_gram
  skip_gram-AllSound order (negsuc _) id g h = h
  skip_gram-AllSound order (pos before) id g h = elim (Bool-cases (before == id)) [
    | inl same ↦ rw same h
    | inr other ↦
        rw other
          (modify-AllSound before _ g (λ n s. (add_edge-IsSoundNode order (pos id) _ _ _ n s).0) h)
  ]

  bond_word-AllSound :
      IsOrder F
      → (prev before : ℤ) (id : ℕ) (g : Graph F) → AllSound g
      → AllSound (bond_word prev before id g).0
  unfolding bond_word
  bond_word-AllSound order (negsuc _) before id g h = h
  bond_word-AllSound order (pos prev) before id g h = elim (Bool-cases (prev == id)) [
    | inl same ↦ rw same h
    | inr other ↦ rw other (
        skip_gram-AllSound order before id _ (
          modify-AllSound id _ _
            (λ n s. (add_edge-IsSoundNode order (pos prev) _ _ prov_unknown n s).1)
            (modify-AllSound prev _ g (λ n s. (add_edge-IsSoundNode order (pos id) _ _ _ n s).0)
              h)))
  ]

  bond_words-AllSound :
      IsOrder F
      → (prev before : ℤ) (ids : List ℤ) (g : Graph F) → AllSound g
      → AllSound (bond_words prev before ids g).0
  unfolding bond_words
  bond_words-AllSound order prev before [] g h = h
  bond_words-AllSound order prev before (negsuc i ∷ ids) g h =
      bond_words-AllSound order prev before ids g h
  bond_words-AllSound order prev before (pos id ∷ ids) g h =
      bond_words-AllSound order (pos id) prev ids _ (bond_word-AllSound order prev before id g h)

  -- A brain whose lexicon is a trie, whose clusters are sound, and whose nodes have sound edge arrays.
  pub record IsBrain (b : Brain F) : Type 0 where
    pub lexicon : Spells b.lexicon
    pub clusters : (i : ℕ) → IsCluster (b.clusters i)
    pub graph : AllSound b.graph

  read_token-IsBrain : (t : Token) (b : Brain F) → IsBrain b → IsBrain (read_token t b).1
  unfolding read_token
  read_token-IsBrain t b is =
      let tagged = tag_raw t b.lexicon in
      let sound = tag_raw-Spells t b.lexicon is.lexicon in
      elim (Bool-cases (tagged.0 == pos_punct || tagged.0 == pos_code)) [
        | inl skipped ↦
            rw skipped (record { lexicon = sound; clusters = is.clusters; graph = is.graph })
        | inr word ↦ rw word (record {
          lexicon = sound;
          clusters =
              (perceive-Settled (encode_word_hash t.text) true (some t.text) b.clusters
                is.clusters).1;
          graph = resonate-AllSound t.text _ _ b.graph is.graph;
        })
      ]

  read_tokens-IsBrain :
      (tokens : List Token) (b : Brain F) → IsBrain b → IsBrain (read_tokens tokens b).1
  unfolding read_tokens
  read_tokens-IsBrain [] b is = is
  read_tokens-IsBrain (t ∷ tokens) b is = read_tokens-IsBrain tokens _ (read_token-IsBrain t b is)

  -- Under an ordered float arithmetic whatever text is ingested leaves a sound brain: the lexicon stays a
  -- trie, the clusters stay sound, and the edge arrays of all nodes stay within their bound, in
  -- order and without doubles.
  pub ingest_raw_sequence-IsBrain :
      IsOrder F → (text : Text) (b : Brain F) → IsBrain b → IsBrain (ingest_raw_sequence text b).0
  unfolding ingest_raw_sequence
  ingest_raw_sequence-IsBrain order text b is =
      let read = read_tokens-IsBrain (tokenize b.lexicon text) b is in
      record {
        lexicon = read.lexicon;
        clusters = read.clusters;
        graph = bond_words-AllSound order minus_one minus_one _ _ read.graph;
      }
