-- ===== src/Lexer/Known.antt =====
-- What `insert` of the lexicon (src/core/fpsan_lexer.h) changes for `lookup`.
use engram_core.Prelude.{
  ℕ, suc, ◌+◌, ◌≤◌, ◌<◌, ◌≡◌, ◌∙◌, refl, inl, inr, [], ◌∷◌, Bool, true, false, Option, none, some,
  ltb, leb, if◌then◌else◌, Bool-cases, length, Text, arith,
}
use engram_core.Lexer.{Lexicon, pos_unknown, alloc_child, insert_walk, lookup_from}
use engram_core.GoalGate.{to_lower}
use engram_core.Lexer.Trie.{IsTrie, path, value_at, value_at-some, value_at-none}
use engram_core.Lexer.Alloc.{
  spell_child, alloc_child-IsTrie, alloc_child-keeps, alloc_child_new, value_at-alloc_child,
}

-- The letters under which a word is filed: lower case, and no byte above 127.
abbrev pub key_of : Text → Text
key_of [] = []
key_of (b ∷ word) =
    let rest = key_of word in if leb 128 (to_lower b) then rest else to_lower b ∷ rest

abbrev pub is_ascii : Text → Bool
is_ascii [] = true
is_ascii (b ∷ word) = let rest = is_ascii word in if leb 128 (to_lower b) then false else rest

pub lookup_from-value_at :
    (l : Lexicon) (word : Text) (i : ℕ)
    → lookup_from word i l ≡ (if is_ascii word then value_at (key_of word) i l else pos_unknown)
unfolding lookup_from value_at
lookup_from-value_at l [] i = refl
lookup_from-value_at l (b ∷ word) i = elim (Bool-cases (leb 128 (to_lower b))) [
  | inl high ↦ rw (high, lookup_from) refl
  | inr low ↦
      rw (low, lookup_from)
        (go ((l.nodes i).children (to_lower b)) refl (λ k. lookup_from-value_at l word k))
]
  where
    go :
        (o : Option ℕ)
        → (l.nodes i).children (to_lower b) ≡ o
        → ((k : ℕ)
            → lookup_from word k l
              ≡ (if is_ascii word then value_at (key_of word) k l else pos_unknown))
        → (elim o as (λ x. ℕ) [ none ↦ pos_unknown | some next ↦ lookup_from word next l ])
          ≡ (if is_ascii word then value_at (to_lower b ∷ key_of word) i l else pos_unknown)
    go none e later = elim (Bool-cases (is_ascii word)) [
      | inl ascii ↦ rw (ascii, value_at-none l (to_lower b) (key_of word) i e) refl
      | inr other ↦ rw other refl
    ]
    go (some k) e later = rw (value_at-some l (to_lower b) (key_of word) i k e) (later k)

pub path-some :
    (l : Lexicon) (c : ℕ) (key : Text) (i j : ℕ)
    → (l.nodes i).children c ≡ some j
    → path (c ∷ key) i l ≡ path key j l
unfolding path
path-some l c key i j e = rw (e, path) refl

-- What a walk of `insert` along `key` from `cur` does to the trie.
pub record Walked (l : Lexicon) (spell : ℕ → Text) (cur : ℕ) (key : Text) (l' : Lexicon)
    (end : Option ℕ) : Type 0 where
  pub spell' : ℕ → Text
  pub trie : IsTrie l' spell'
  pub grows : l.pool_used ≤ l'.pool_used
  pub keeps : (i c j : ℕ) → (l.nodes i).children c ≡ some j → (l'.nodes i).children c ≡ some j
  pub same : (k : Text) (i : ℕ) → i ≤ l.pool_used → value_at k i l' ≡ value_at k i l
  pub ends : (e : ℕ) → end ≡ some e → (e ≤ l'.pool_used) × (path key cur l' ≡ some e)
  pub size : l'.pool_size ≡ l.pool_size
  pub few : l'.pool_used ≤ l.pool_used + length key
  pub full : end ≡ none → l.pool_size < l.pool_used + length key

-- A step to a child that was there.
walk_known :
    (l : Lexicon) (spell : ℕ → Text) (cur c next : ℕ) (key : Text) (l' : Lexicon) (end : Option ℕ)
    → (l.nodes cur).children c ≡ some next
    → Walked l spell next key l' end
    → Walked l spell cur (c ∷ key) l' end
walk_known l spell cur c next key l' end e w = record {
  spell' = w.spell';
  trie = w.trie;
  grows = w.grows;
  keeps = w.keeps;
  same = w.same;
  ends =
      λ k q. ((w.ends k q).0, path-some l' c key cur next (w.keeps cur c next e) ∙ (w.ends k q).1);
  size = w.size;
  few = omega (arith, w.few);
  full = λ q. omega (arith, w.full q);
}

-- A step to a new child.
walk_new :
    (l : Lexicon) (spell : ℕ → Text) (cur c : ℕ) (key : Text) (l' : Lexicon) (end : Option ℕ)
    → IsTrie l spell
    → cur ≤ l.pool_used
    → (l.nodes cur).children c ≡ none
    → Walked (alloc_child cur c l) (spell_child spell l cur c) (suc l.pool_used) key l' end
    → Walked l spell cur (c ∷ key) l' end
unfolding alloc_child
walk_new l spell cur c key l' end trie known free w = record {
  spell' = w.spell';
  trie = w.trie;
  grows = omega (arith, w.grows);
  keeps = λ i d j e. w.keeps i d j (alloc_child-keeps l spell trie cur c known free i d j e);
  same = λ k i le.
      w.same k i (omega arith) ∙ value_at-alloc_child l spell trie cur c known free k i le;
  ends = λ k q. (
    (w.ends k q).0,
    path-some l' c key cur (suc l.pool_used)
          (w.keeps cur c (suc l.pool_used) (alloc_child_new l spell trie cur c known free))
        ∙ (w.ends k q).1,
  );
  size = w.size;
  few = omega (arith, w.few);
  full = λ q. omega (arith, w.full q);
}

pub insert_walk-Walked :
    (word : Text) (cur : ℕ) (l : Lexicon) (spell : ℕ → Text)
    → IsTrie l spell
    → cur ≤ l.pool_used
    → Walked l spell cur (key_of word) (insert_walk word cur l).0 (insert_walk word cur l).1
unfolding insert_walk path
insert_walk-Walked [] cur l spell trie known = record {
  spell' = spell;
  trie = trie;
  grows = omega arith;
  keeps = λ i c j e. e;
  same = λ k i le. refl;
  ends = λ e q. let here : cur ≡ e = cc in (omega arith, q);
  size = refl;
  few = omega arith;
  full = λ q. cc;
}
insert_walk-Walked (b ∷ word) cur l spell trie known = elim (Bool-cases (leb 128 (to_lower b))) [
  | inl high ↦ rw (high, insert_walk) (insert_walk-Walked word cur l spell trie known)
  | inr low ↦
      rw (low, insert_walk)
        (go ((l.nodes cur).children c) refl (λ next h. insert_walk-Walked word next l spell trie h)
          (λ free.
            insert_walk-Walked word (suc l.pool_used) (alloc_child cur c l)
              (spell_child spell l cur c) (alloc_child-IsTrie l spell trie cur c known free)
              (unfold alloc_child in omega arith)))
]
  where
    c : ℕ
    c = to_lower b

    go :
        (o : Option ℕ)
        → (l.nodes cur).children c ≡ o
        → ((next : ℕ)
            → next ≤ l.pool_used
            → Walked l spell next
                (key_of word)
                (insert_walk word next l).0
                (insert_walk word next l).1)
        → ((l.nodes cur).children c ≡ none
            → Walked
                (alloc_child cur c l)
                (spell_child spell l cur c)
                (suc l.pool_used)
                (key_of word)
                (insert_walk word (suc l.pool_used) (alloc_child cur c l)).0
                (insert_walk word (suc l.pool_used) (alloc_child cur c l)).1)
        → let out : Lexicon × Option ℕ = elim o [
          | some next ↦ insert_walk word next l
          | none ↦ elim (ltb l.pool_used l.pool_size) [
            | true ↦ insert_walk word (suc l.pool_used) (alloc_child cur c l)
            | false ↦ (l, none)
          ]
        ] in
          Walked l spell cur (c ∷ key_of word) out.0 out.1
    go (some next) e old new =
        walk_known l spell cur c next (key_of word) _ _ e (old next (trie.edge cur c next e).1)
    go none e old new = elim (Bool-cases (ltb l.pool_used l.pool_size)) [
      | inl room ↦ rw room (walk_new l spell cur c (key_of word) _ _ trie known e (new e))
      | inr exhausted ↦ rw exhausted (record {
        spell' = spell;
        trie = trie;
        grows = omega arith;
        keeps = λ i d j q. q;
        same = λ k i le. refl;
        ends = λ k q. cc;
        size = refl;
        few = omega arith;
        full = λ q. ground arith;
      })
    ]
