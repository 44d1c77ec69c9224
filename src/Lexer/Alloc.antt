-- ===== src/Lexer/Alloc.antt =====
-- A new child in the trie (src/core/fpsan_lexer.h): the trie keeps its shape, and nothing new is found.
use engram_core.Prelude.{
  ℕ, suc, ◌≤◌, ◌<◌, ◌≡◌, ◌∙◌, refl, sym, ap, ap₂, ◌≢◌, ◌⊎◌, inl, inr, [], ◌∷◌, ◌++◌, true, false,
  Option, none, some, ◌==◌, if◌then◌else◌, ℕ_discrete, update, update_self, update_ne, Text, arith,
}
use engram_core.Lexer.{TrieNode, Lexicon, pos_unknown, alloc_child}
use engram_core.Lexer.Trie.{value, value_at, value_at-some, value_at-none, IsTrie, edge_known}

-- A new child at the end of the pool.
abbrev pub spell_child : (ℕ → Text) → Lexicon → ℕ → ℕ → ℕ → Text
spell_child spell l cur c = update spell (suc l.pool_used) (spell cur ++ (c ∷ []))

module _ (l : Lexicon) (spell : ℕ → Text) (trie : IsTrie l spell) (cur c : ℕ)
    (known : cur ≤ l.pool_used) (free : (l.nodes cur).children c ≡ none) where
  -- Its edges are those of the old trie and the new one.
  alloc_child-edge :
      (i d : ℕ)
      → ((alloc_child cur c l).nodes i).children d ≡ (
          if i == cur
          then (if d == c then some (suc l.pool_used) else (l.nodes i).children d)
          else (l.nodes i).children d)
  unfolding alloc_child
  alloc_child-edge i d = elim (ℕ_discrete i cur) [
    | yes same ↦ let e : (i == cur) ≡ true = ground arith in rw (e, sym same) refl
    | no other ↦ let e : (i == cur) ≡ false = ground arith in rw e refl
  ]

  alloc_child_cases :
      (i d j : ℕ)
      → ((alloc_child cur c l).nodes i).children d ≡ some j
      → (i ≡ cur) × (d ≡ c) × (j ≡ suc l.pool_used) ⊎ ((l.nodes i).children d ≡ some j)
  alloc_child_cases i d j e =
      let e' = sym (alloc_child-edge i d) ∙ e in
      elim (ℕ_discrete i cur) [
        | no other ↦ let f : (i == cur) ≡ false = ground arith in inr (sym (rw f refl) ∙ e')
        | yes same ↦ elim (ℕ_discrete d c) [
          | no other ↦
              let t : (i == cur) ≡ true = ground arith in
              let f : (d == c) ≡ false = ground arith in inr (sym (rw (t, f) refl) ∙ e')
          | yes letter ↦
              let t : (i == cur) ≡ true = ground arith in
              let u : (d == c) ≡ true = ground arith in
              let made : some (suc l.pool_used) ≡ some j = sym (rw (t, u) refl) ∙ e' in
              inl (same, letter, cc)
        ]
      ]

  spell_old : (i : ℕ) → i ≤ l.pool_used → spell_child spell l cur c i ≡ spell i
  spell_old i le = update_ne spell (suc l.pool_used) i (spell cur ++ (c ∷ [])) (λ h. omega arith)

  spell_new : spell_child spell l cur c (suc l.pool_used) ≡ spell cur ++ (c ∷ [])
  spell_new = update_self spell (suc l.pool_used) (spell cur ++ (c ∷ []))

  alloc_child-used : (alloc_child cur c l).pool_used ≡ suc l.pool_used
  unfolding alloc_child
  alloc_child-used = refl

  alloc_child-node : (i : ℕ) → i ≢ cur → (alloc_child cur c l).nodes i ≡ l.nodes i
  unfolding alloc_child
  alloc_child-node i h = update_ne l.nodes cur i _ h

  pub alloc_child-value : (i : ℕ) → value ((alloc_child cur c l).nodes i) ≡ value (l.nodes i)
  unfolding alloc_child
  alloc_child-value i = elim (ℕ_discrete i cur) [
    | yes same ↦ let e : (i == cur) ≡ true = ground arith in rw (e, sym same) refl
    | no other ↦ let e : (i == cur) ≡ false = ground arith in rw e refl
  ]

  alloc_child-IsEdge :
      (i d j : ℕ)
      → ((alloc_child cur c l).nodes i).children d ≡ some j
      → (spell_child spell l cur c j ≡ spell_child spell l cur c i ++ (d ∷ []))
        × (j ≤ suc l.pool_used)
  alloc_child-IsEdge i d j e = elim (alloc_child_cases i d j e) [
    | inl (at, letter, new) ↦ (
      ap (spell_child spell l cur c) new
          ∙ spell_new
          ∙ ap₂ (λ w k. w ++ (k ∷ []))
              (sym (ap (spell_child spell l cur c) at ∙ spell_old cur known)) (sym letter),
      omega arith,
    )
    | inr old ↦
        let was = trie.edge i d j old in
        (
          spell_old j was.1
              ∙ was.0
              ∙ ap (λ w. w ++ (d ∷ [])) (sym (spell_old i (edge_known l spell trie i d j old))),
          omega (arith, was.1),
        )
  ]

  pub alloc_child-IsTrie : IsTrie (alloc_child cur c l) (spell_child spell l cur c)
  alloc_child-IsTrie = record {
    root = spell_old 0 (omega arith) ∙ trie.root;
    edge = λ i d j e. let new = alloc_child-IsEdge i d j e in (new.0, rw alloc_child-used new.1);
    unused = λ i h.
        let above : suc l.pool_used < i = omega (arith, alloc_child-used) in
        alloc_child-node i (λ q. omega arith) ∙ trie.unused i (omega arith);
  }

  -- Nothing is to be found through it yet.
  new_child_empty :
      (key : Text) → value_at key (suc l.pool_used) (alloc_child cur c l) ≡ pos_unknown
  unfolding value_at
  new_child_empty [] =
      alloc_child-value (suc l.pool_used) ∙ ap value (trie.unused (suc l.pool_used) (omega arith))
  new_child_empty (d ∷ key) =
      let e : ((alloc_child cur c l).nodes (suc l.pool_used)).children d ≡ none =
        ap (λ (n : TrieNode). n.children d)
          (alloc_child-node (suc l.pool_used) (λ q. omega arith)
            ∙ trie.unused (suc l.pool_used) (omega arith)) in
      value_at-none (alloc_child cur c l) d key (suc l.pool_used) e

  -- The edges of the old trie are kept.
  pub alloc_child-keeps :
      (i d j : ℕ)
      → (l.nodes i).children d ≡ some j
      → ((alloc_child cur c l).nodes i).children d ≡ some j
  alloc_child-keeps i d j e = alloc_child-edge i d ∙ elim (ℕ_discrete i cur) [
    | no other ↦ let f : (i == cur) ≡ false = ground arith in rw f e
    | yes same ↦ elim (ℕ_discrete d c) [
      | no other ↦
          let t : (i == cur) ≡ true = ground arith in
          let f : (d == c) ≡ false = ground arith in rw (t, f) e
      | yes letter ↦
          let gone : (l.nodes i).children d ≡ none =
            ap₂ (λ k w. (l.nodes k).children w) same letter ∙ free in
          cc
    ]
  ]

  pub alloc_child_new : ((alloc_child cur c l).nodes cur).children c ≡ some (suc l.pool_used)
  alloc_child_new =
      let t : (cur == cur) ≡ true = ground arith in
      let u : (c == c) ≡ true = ground arith in alloc_child-edge cur c ∙ rw (t, u) refl

  pub value_at-alloc_child :
      (key : Text) (i : ℕ)
      → i ≤ l.pool_used
      → value_at key i (alloc_child cur c l) ≡ value_at key i l
  unfolding value_at
  value_at-alloc_child [] i le = alloc_child-value i
  value_at-alloc_child (d ∷ key) i le =
      go ((l.nodes i).children d) refl (λ k h. value_at-alloc_child key k h)
    where
      old_none :
          ((alloc_child cur c l).nodes i).children d ≡ none
          → (l.nodes i).children d ≡ none
          → value_at (d ∷ key) i (alloc_child cur c l) ≡ value_at (d ∷ key) i l
      old_none p q = value_at-none (alloc_child cur c l) d key i p ∙ sym (value_at-none l d key i q)

      go :
          (o : Option ℕ)
          → (l.nodes i).children d ≡ o
          → ((k : ℕ) → k ≤ l.pool_used → value_at key k (alloc_child cur c l) ≡ value_at key k l)
          → value_at (d ∷ key) i (alloc_child cur c l) ≡ value_at (d ∷ key) i l
      go (some k) q later =
          value_at-some (alloc_child cur c l) d key i k (alloc_child-keeps i d k q)
          ∙ later k (trie.edge i d k q).1
          ∙ sym (value_at-some l d key i k q)
      go none q later = new (((alloc_child cur c l).nodes i).children d) refl
        where
          new :
              (o : Option ℕ)
              → ((alloc_child cur c l).nodes i).children d ≡ o
              → value_at (d ∷ key) i (alloc_child cur c l) ≡ value_at (d ∷ key) i l
          new none p = old_none p q
          new (some j) p = elim (alloc_child_cases i d j p) [
            | inr old ↦ cc
            | inl (at, letter, made) ↦
                value_at-some (alloc_child cur c l) d key i j p
                ∙ ap (λ k. value_at key k (alloc_child cur c l)) made
                ∙ new_child_empty key
                ∙ sym (value_at-none l d key i q)
          ]
