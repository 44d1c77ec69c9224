-- ===== src/Lexer/Insert.antt =====
-- `insert` and `lookup` of the lexicon (src/core/fpsan_lexer.h) as a dictionary.
use engram_core.Prelude.{
  ℕ, ◌+◌, ◌≤◌, ◌<◌, ◌≡◌, ◌∙◌, refl, sym, ap, ap₂, ◌≢◌, ◌⊎◌, inl, inr, [], ◌∷◌, ◌++◌, true, false,
  ◌&&◌, Option, none, some, ◌==◌, if◌then◌else◌, Bool-cases, ℕ_discrete, update_ne, length, Text,
  same_text, same_text_self, arith,
}
use engram_core.Lexer.{Lexicon, pos_unknown, insert_walk, set_word, insert, lookup}
use engram_core.Lexer.Trie.{IsTrie, path, value, value_at, value_at-some, value_at-none, path-spell}
use engram_core.Lexer.Known.{
  key_of, is_ascii, lookup_from-value_at, path-some, Walked, insert_walk-Walked,
}

same_text-eq : (a b : Text) → same_text a b ≡ true → a ≡ b
unfolding same_text
same_text-eq [] [] h = refl
same_text-eq [] (d ∷ w) h = cc
same_text-eq (c ∷ v) [] h = cc
same_text-eq (c ∷ v) (d ∷ w) h = ap₂ (◌∷◌) (ground arith) (same_text-eq v w (ground arith))

pub length-key_of-le : (word : Text) → length (key_of word) ≤ length word
length-key_of-le [] = omega arith
length-key_of-le (b ∷ word) = ground (arith, length-key_of-le word)

module _ (l : Lexicon) (e tag : ℕ) where
  set_word_children : (i : ℕ) → ((set_word e tag l).nodes i).children ≡ (l.nodes i).children
  unfolding set_word
  set_word_children i = elim (ℕ_discrete i e) [
    | yes same ↦ let t : (i == e) ≡ true = ground arith in rw (t, sym same) refl
    | no other ↦ let f : (i == e) ≡ false = ground arith in rw f refl
  ]

  value-set_word : value ((set_word e tag l).nodes e) ≡ tag
  unfolding set_word
  value-set_word = let t : (e == e) ≡ true = ground arith in rw t refl

  set_word_other : (i : ℕ) → i ≢ e → (set_word e tag l).nodes i ≡ l.nodes i
  unfolding set_word
  set_word_other i h = update_ne l.nodes e i _ h

  set_word_used : (set_word e tag l).pool_used ≡ l.pool_used
  unfolding set_word
  set_word_used = refl

  set_word_edge :
      (i c : ℕ) (o : Option ℕ)
      → (l.nodes i).children c ≡ o
      → ((set_word e tag l).nodes i).children c ≡ o
  set_word_edge i c o q = ap (λ k. k c) (set_word_children i) ∙ q

  set_word-IsTrie :
      (spell : ℕ → Text) → IsTrie l spell → e ≤ l.pool_used → IsTrie (set_word e tag l) spell
  set_word-IsTrie spell trie known = record {
    root = trie.root;
    edge = λ i c j q.
        let old = trie.edge i c j (sym (ap (λ k. k c) (set_word_children i)) ∙ q) in
        (old.0, rw set_word_used old.1);
    unused = λ i h.
        let above : l.pool_used < i = omega (arith, set_word_used) in
        set_word_other i (λ q. omega arith) ∙ trie.unused i above;
  }

  -- What is found along the path to the node, and along any other one.
  value_at-set_word :
      (key : Text) (i : ℕ) → path key i l ≡ some e → value_at key i (set_word e tag l) ≡ tag
  unfolding path value_at
  value_at-set_word [] i h =
      let same : i ≡ e = cc in ap (λ k. value ((set_word e tag l).nodes k)) same ∙ value-set_word
  value_at-set_word (c ∷ key) i h =
      go ((l.nodes i).children c) refl h (λ k q. value_at-set_word key k q)
    where
      go :
          (o : Option ℕ)
          → (l.nodes i).children c ≡ o
          → (elim o as (λ x. Option ℕ) [ some next ↦ path key next l | none ↦ none ]) ≡ some e
          → ((k : ℕ) → path key k l ≡ some e → value_at key k (set_word e tag l) ≡ tag)
          → value_at (c ∷ key) i (set_word e tag l) ≡ tag
      go none q p later = cc
      go (some k) q p later =
          value_at-some (set_word e tag l) c key i k (set_word_edge i c (some k) q) ∙ later k p

  value_at-set_word_other :
      (key : Text) (i : ℕ)
      → path key i l ≢ some e
      → value_at key i (set_word e tag l) ≡ value_at key i l
  unfolding path value_at
  value_at-set_word_other [] i h = ap value (set_word_other i (λ q. h (ap some q)))
  value_at-set_word_other (c ∷ key) i h =
      go ((l.nodes i).children c) refl (λ k q. value_at-set_word_other key k q)
    where
      go :
          (o : Option ℕ)
          → (l.nodes i).children c ≡ o
          → ((k : ℕ) → path key k l ≢ some e → value_at key k (set_word e tag l) ≡ value_at key k l)
          → value_at (c ∷ key) i (set_word e tag l) ≡ value_at (c ∷ key) i l
      go none q later =
          value_at-none (set_word e tag l) c key i (set_word_edge i c none q)
          ∙ sym (value_at-none l c key i q)
      go (some k) q later =
          value_at-some (set_word e tag l) c key i k (set_word_edge i c (some k) q)
          ∙ later k (λ p. h (path-some l c key i k q ∙ p))
          ∙ sym (value_at-some l c key i k q)

lookup_lem :
    (v : Text) (l : Lexicon)
    → lookup v l ≡ (if is_ascii v then value_at (key_of v) 0 l else pos_unknown)
unfolding lookup
lookup_lem v l = lookup_from-value_at l v 0

-- After `insert` the word and all that are filed with it have the tag, if they are plain ASCII.
abbrev pub Stored : Text → ℕ → Lexicon → Lexicon → Type 0
Stored word tag l l' =
    (v : Text)
    → lookup v l' ≡ (if is_ascii v && same_text (key_of v) (key_of word) then tag else lookup v l)

insert-Stored :
    (l : Lexicon) (spell : ℕ → Text) (word : Text) (tag e : ℕ)
    → IsTrie l spell
    → (insert_walk word 0 l).1 ≡ some e
    → Stored word tag l (set_word e tag (insert_walk word 0 l).0)
unfolding lookup
insert-Stored l spell word tag e trie end v =
    let w = insert_walk-Walked word 0 l spell trie (omega arith) in
    let walked = (insert_walk word 0 l).0 in
    let way = (w.ends e end).1 in
    rw (lookup_from-value_at (set_word e tag walked) v 0, lookup_from-value_at l v 0)
      (elim (Bool-cases (is_ascii v)) [
        | inr other ↦ rw other refl
        | inl ascii ↦ elim (Bool-cases (same_text (key_of v) (key_of word))) [
          | inl same ↦
              rw (ascii, same)
                (value_at-set_word walked e tag (key_of v) 0
                  (ap (λ k. path k 0 walked) (same_text-eq (key_of v) (key_of word) same) ∙ way))
          | inr differ ↦
              let apart : path (key_of v) 0 walked ≢ some e = λ p.
                let spelled = path-spell walked w.spell' w.trie (key_of v) 0 e p in
                let filed = path-spell walked w.spell' w.trie (key_of word) 0 e way in
                let same : key_of v ≡ key_of word =
                  sym (ap (λ k. k ++ key_of v) w.trie.root)
                  ∙ sym spelled
                  ∙ filed
                  ∙ ap (λ k. k ++ key_of word) w.trie.root in
                let equal : same_text (key_of v) (key_of word) ≡ true =
                  ap (λ k. same_text k (key_of word)) same ∙ same_text_self (key_of word) in
                cc in
              rw (ascii, differ)
                (value_at-set_word_other walked e tag (key_of v) 0 apart
                  ∙ w.same (key_of v) 0 (omega arith))
        ]
      ])

-- What `insert` does to a dictionary that is a trie.
abbrev pub Inserted : Text → ℕ → Lexicon → Lexicon → Type 0
Inserted word tag l l' =
    ((spell : ℕ → Text) × IsTrie l' spell)
    × (Stored word tag l l'
        ⊎ (l.pool_size < l.pool_used + length word) × ((v : Text) → lookup v l' ≡ lookup v l))

-- On a trie `insert` leaves a trie. Either the word has its tag then, and with it just the plain ASCII
-- words that are filed under the same letters, while all other words are as before; or the
-- pool had fewer nodes left than the word has bytes, and then no word changes.
pub insert-Inserted :
    (l : Lexicon) (spell : ℕ → Text)
    → IsTrie l spell
    → (word : Text) (tag : ℕ) → Inserted word tag l (insert word tag l)
unfolding insert
insert-Inserted l spell trie word tag =
    go (insert_walk word 0 l).1 refl (insert_walk-Walked word 0 l spell trie (omega arith))
  where
    walked : Lexicon
    walked = (insert_walk word 0 l).0

    go :
        (end : Option ℕ)
        → (insert_walk word 0 l).1 ≡ end
        → Walked l spell 0 (key_of word) walked (insert_walk word 0 l).1
        → Inserted word tag l
            (elim end as (λ x. Lexicon) [ none ↦ walked | some cur ↦ set_word cur tag walked ])
    go none q w = (
      (w.spell', w.trie),
      inr (
        omega (arith, w.full q, length-key_of-le word),
        λ v.
            lookup_lem v walked
            ∙ ap (λ k. if is_ascii v then k else pos_unknown) (w.same (key_of v) 0 (omega arith))
            ∙ sym (lookup_lem v l),
      ),
    )
    go (some e) q w = (
      (w.spell', set_word-IsTrie walked e tag w.spell' w.trie (w.ends e q).0),
      inl (insert-Stored l spell word tag e trie q),
    )
