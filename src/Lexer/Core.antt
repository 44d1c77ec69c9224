-- ===== src/Lexer/Core.antt =====
-- What the lexicon knows after a row of insertions, and at the start (src/core/fpsan_lexer.h).
use engram_core.Prelude.{
  ℕ, zero, suc, ◌+◌, ◌≤◌, ◌≡◌, ◌∙◌, refl, sym, ap, Bool-cases, leb, ◌==◌, inl, inr, List, [], ◌∷◌,
  ◌&&◌, Option, none, some, if◌then◌else◌, length, Text, same_text, arith,
}
use engram_core.Lexer.{
  Lexicon, pos_unknown, init_lexicon, insert_walk, set_word, insert, lookup, lookup_from,
}
use engram_core.GoalGate.{to_lower}
use engram_core.Lexer.Trie.{IsTrie, init-IsTrie}
use engram_core.Lexer.Known.{key_of, is_ascii, insert_walk-Walked}
use engram_core.Lexer.Insert.{insert-Inserted, length-key_of-le}
use engram_core.Lexer.Dictionary.{
  insert_all, core_words, bootstrap_core, init, before, after, parse_line, fgets, entries,
  load_dictionary, tag_of_text,
}

-- The tag of a word after a row of insertions: that of the last entry that is filed under its letters.
abbrev pub last_tag : List (Text × ℕ) → ℕ → Text → ℕ
last_tag [] known v = known
last_tag ((word, tag) ∷ words) known v =
    last_tag words (if is_ascii v && same_text (key_of v) (key_of word) then tag else known) v

abbrev pub total_bytes : List (Text × ℕ) → ℕ
total_bytes [] = 0
total_bytes ((word, tag) ∷ words) = length word + total_bytes words

-- A lexicon that is a trie, with the room that a row of insertions leaves.
pub record Grown (l : Lexicon) (bytes : ℕ) (l' : Lexicon) : Type 0 where
  pub spell : ℕ → Text
  pub trie : IsTrie l' spell
  pub size : l'.pool_size ≡ l.pool_size
  pub used : l'.pool_used ≤ l.pool_used + bytes

insert_room :
    (l : Lexicon) (spell : ℕ → Text)
    → IsTrie l spell
    → (word : Text) (tag : ℕ)
    → ((insert word tag l).pool_size ≡ l.pool_size)
      × ((insert word tag l).pool_used ≤ l.pool_used + length word)
unfolding insert set_word
insert_room l spell trie word tag =
    let w = insert_walk-Walked word 0 l spell trie (omega arith) in
    go (insert_walk word 0 l).1 w.size (omega (arith, w.few, length-key_of-le word))
  where
    walked : Lexicon
    walked = (insert_walk word 0 l).0

    go :
        (end : Option ℕ)
        → walked.pool_size ≡ l.pool_size
        → walked.pool_used ≤ l.pool_used + length word
        → let out : Lexicon = elim end [ none ↦ walked | some cur ↦ set_word cur tag walked ] in
          (out.pool_size ≡ l.pool_size) × (out.pool_used ≤ l.pool_used + length word)
    go none size few = (size, few)
    go (some e) size few = (size, few)

-- With room for all their bytes the entries are inserted, and the later ones win.
insert_all-Grown :
    (words : List (Text × ℕ)) (l : Lexicon) (spell : ℕ → Text)
    → IsTrie l spell
    → l.pool_used + total_bytes words ≤ l.pool_size
    → Grown l (total_bytes words) (insert_all words l)
      × ((v : Text) → lookup v (insert_all words l) ≡ last_tag words (lookup v l) v)
unfolding insert_all
insert_all-Grown [] l spell trie room =
    (record { spell = spell; trie = trie; size = refl; used = omega arith }, λ v. refl)
insert_all-Grown ((word, tag) ∷ words) l spell trie room =
    let inserted = insert-Inserted l spell trie word tag in
    let used = insert_room l spell trie word tag in
    elim inserted.1 [
      | inr full ↦ absurd (omega arith)
      | inl stored ↦
          let ih =
            insert_all-Grown words (insert word tag l) inserted.0.0 inserted.0.1
              (omega (arith, used)) in
          (
            record {
              spell = ih.0.spell;
              trie = ih.0.trie;
              size = ih.0.size ∙ used.0;
              used = omega (arith, ih.0.used, used.1);
            },
            λ v. ih.1 v ∙ ap (λ k. last_tag words k v) (stored v),
          )
    ]

core_bytes : total_bytes core_words ≤ 10000
unfolding core_words
core_bytes = omega arith

empty_lexicon : (max_nodes : ℕ) (v : Text) → lookup v (init_lexicon max_nodes) ≡ pos_unknown
unfolding lookup lookup_from init_lexicon
empty_lexicon max_nodes [] = refl
empty_lexicon max_nodes (b ∷ v) = elim (Bool-cases (leb 128 (to_lower b))) [
  | inl high ↦ rw (high, lookup_from) refl
  | inr low ↦ rw (low, lookup_from) refl
]

init-Grown :
    Grown (init_lexicon 200000) (total_bytes core_words) init
    × ((v : Text) → lookup v init ≡ last_tag core_words pos_unknown v)
unfolding init bootstrap_core
init-Grown =
    let start : (init_lexicon 200000).pool_used + total_bytes core_words
        ≤ (init_lexicon 200000).pool_size =
      unfold init_lexicon in omega (arith, core_bytes) in
    let grown =
      insert_all-Grown core_words (init_lexicon 200000) (λ i. []) (init-IsTrie 200000) start in
    (grown.0, λ v. grown.1 v ∙ ap (λ k. last_tag core_words k v) (empty_lexicon 200000 v))

length-before-le : (b : ℕ) (s : Text) → length (before b s) ≤ length s
unfolding before
length-before-le b [] = omega arith
length-before-le b (c ∷ s) = ground (arith, length-before-le b s)

-- The word of an entry is a part of its line.
parse_line-le :
    (line : Text) (entry : Text × ℕ) → parse_line line ≡ some entry → length entry.0 ≤ length line
unfolding parse_line
parse_line-le line entry e = go (after b',' line) e
  where
    word_of : Option (Text × ℕ) → Text
    word_of none = []
    word_of (some pair) = pair.0

    tag_of : Text → ℕ
    tag_of rest = tag_of_text (before b'\r' (before b'\n' rest))

    go :
        (o : Option Text)
        → let out : Option (Text × ℕ) = elim o [
          | none ↦ none
          | some rest ↦
              if tag_of rest == pos_unknown then none else some (before b',' line, tag_of rest)
        ] in
          out ≡ some entry → length entry.0 ≤ length line
    go none q = cc
    go (some rest) q = elim (Bool-cases (tag_of rest == pos_unknown)) [
      | inl unknown ↦ let bad : none ≡ some entry = sym (rw unknown refl) ∙ q in cc
      | inr known ↦
          let made : some (before b',' line, tag_of rest) ≡ some entry = sym (rw known refl) ∙ q in
          let word : before b',' line ≡ entry.0 = ap word_of made in
          omega (arith, length-before-le b',' line, ap length word)
    ]

length-fgets : (room : ℕ) (s : Text) → length (fgets room s).0 + length (fgets room s).1 ≡ length s
unfolding fgets
length-fgets zero s = omega arith
length-fgets (suc room) [] = omega arith
length-fgets (suc room) (c ∷ s) = ground (arith, length-fgets room s)

total-entries-le : (rounds : ℕ) (file : Text) → total_bytes (entries rounds file) ≤ length file
unfolding entries
total-entries-le zero file = omega arith
total-entries-le (suc rounds) file =
    let read = length-fgets 255 file in
    let ih = total-entries-le rounds (fgets 255 file).1 in
    go (fgets 255 file).0 refl (omega (arith, read, ih))
  where
    rest : List (Text × ℕ)
    rest = entries rounds (fgets 255 file).1

    go :
        (line : Text)
        → (fgets 255 file).0 ≡ line
        → length (fgets 255 file).0 + total_bytes rest ≤ length file
        → let out : List (Text × ℕ) = elim line [
          | [] ↦ []
          | c ∷ more ↦ elim (parse_line (c ∷ more)) [ none ↦ rest | some entry ↦ entry ∷ rest ]
        ] in
          total_bytes out ≤ length file
    go [] e h = omega arith
    go (c ∷ more) e h = parsed (parse_line (c ∷ more)) refl
      where
        size : length (fgets 255 file).0 ≡ length (c ∷ more)
        size = ap length e

        parsed :
            (o : Option (Text × ℕ))
            → parse_line (c ∷ more) ≡ o
            → let out : List (Text × ℕ) = elim o [ none ↦ rest | some entry ↦ entry ∷ rest ] in
              total_bytes out ≤ length file
        parsed none q = omega arith
        parsed (some entry) q = omega (arith, size, parse_line-le (c ∷ more) entry q)

-- Once the lexer is initialised and a dictionary of at most 190000 bytes is loaded, a word has the tag
-- of the last entry that is filed under its letters, first of the file and then of the built-in
-- words; a word that is not plain ASCII has none.
pub load_dictionary-last_tag :
    (file : Text)
    → length file ≤ 190000
    → (v : Text)
    → lookup v (load_dictionary file init).0
      ≡ last_tag (entries (length file) file) (last_tag core_words pos_unknown v) v
unfolding load_dictionary
load_dictionary-last_tag file small v =
    let start = init-Grown.0 in
    let size : init.pool_size ≡ 200000 = start.size ∙ (unfold init_lexicon in refl) in
    let used : init.pool_used ≤ 10000 =
      unfold init_lexicon in omega (arith, start.used, core_bytes) in
    let room : init.pool_used + total_bytes (entries (length file) file) ≤ init.pool_size =
      omega (arith, total-entries-le (length file) file) in
    let loaded = insert_all-Grown (entries (length file) file) init start.spell start.trie room in
    loaded.1 v ∙ ap (λ k. last_tag (entries (length file) file) k v) (init-Grown.1 v)
