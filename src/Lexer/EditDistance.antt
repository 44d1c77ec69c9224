-- ===== src/Lexer/EditDistance.antt =====
-- `levenshtein_dist` (src/core/fpsan_lexer.h) against edits of a word.
use engram_core.Prelude.{
  ℕ, suc, ◌+◌, ◌≤◌, ◌<◌, ◌≡◌, ◌∙◌, refl, sym, ap, subst, subst₂, ◌⊎◌, inl, inr, List, [], ◌∷◌, min,
  ◌==◌, if◌then◌else◌, Bool-cases, length, Text, arith,
}
use engram_core.Lexer.Spelling.{fill, fill_rows, first_row, last_of, far_apart, levenshtein_dist}

-- `Edits n a b`: with `n` letters inserted, dropped or changed, `a` becomes `b`.
pub data Edits : ℕ → Text → Text → Type 0 where
  done : Edits 0 [] []
  keep : {n : ℕ} {a b : Text} → (c : ℕ) → Edits n a b → Edits n (c ∷ a) (c ∷ b)
  change : {n : ℕ} {a b : Text} → (c d : ℕ) → Edits n a b → Edits (n + 1) (c ∷ a) (d ∷ b)
  insert : {n : ℕ} {a b : Text} → (d : ℕ) → Edits n a b → Edits (n + 1) a (d ∷ b)
  remove : {n : ℕ} {a b : Text} → (c : ℕ) → Edits n a b → Edits (n + 1) (c ∷ a) b

-- The table at two beginnings of the words, with the last letter first.
abbrev cell : Text → Text → ℕ
cell [] q = length q
cell (x ∷ p) [] = suc (length p)
cell (x ∷ p) (y ∷ q) =
    min (min (cell p (y ∷ q) + 1) (cell (x ∷ p) q + 1)) (cell p q + (if x == y then 0 else 1))

cell_nil : (p : Text) → cell p [] ≡ length p
cell_nil [] = refl
cell_nil (x ∷ p) = refl

-- A row of the table, from the beginning `q` on.
abbrev row_of : Text → Text → Text → List ℕ
row_of p q [] = cell p q ∷ []
row_of p q (y ∷ b) = cell p q ∷ row_of p (y ∷ q) b

fill-row_of : (x : ℕ) (p q b : Text) → fill x b (cell (x ∷ p) q) (row_of p q b) ≡ row_of (x ∷ p) q b
unfolding fill
fill-row_of x p q [] = refl
fill-row_of x p q (y ∷ []) = refl
fill-row_of x p q (y ∷ z ∷ b) = ap (◌∷◌ (cell (x ∷ p) q)) (fill-row_of x p (y ∷ q) (z ∷ b))

first_row-row_of : (q b : Text) → first_row (length q) b ≡ row_of [] q b
unfolding first_row
first_row-row_of q [] = refl
first_row-row_of q (y ∷ b) =
    let next : length q + 1 ≡ length (y ∷ q) = omega arith in
    ap (◌∷◌ (length q)) (ap (λ k. first_row k b) next ∙ first_row-row_of (y ∷ q) b)

-- A word turned round, onto what was turned before.
abbrev rev_onto : Text → Text → Text
rev_onto [] p = p
rev_onto (x ∷ a) p = rev_onto a (x ∷ p)

rev_onto_back : (a p : Text) → rev_onto (rev_onto a p) [] ≡ rev_onto p a
rev_onto_back [] p = refl
rev_onto_back (x ∷ a) p = rev_onto_back a (x ∷ p)

fill_rows-row_of :
    (a b p : Text) → fill_rows (length p) a b (row_of p [] b) ≡ row_of (rev_onto a p) [] b
unfolding fill_rows
fill_rows-row_of [] b p = refl
fill_rows-row_of (x ∷ a) b p =
    let next : length p + 1 ≡ length (x ∷ p) = omega arith in
    rw next
      (ap (fill_rows (length (x ∷ p)) a b) (fill-row_of x p [] b) ∙ fill_rows-row_of a b (x ∷ p))

last_of-row_of : (p q b : Text) → last_of (row_of p q b) ≡ cell p (rev_onto b q)
last_of-row_of p q [] = refl
last_of-row_of p q (y ∷ []) = refl
last_of-row_of p q (y ∷ z ∷ b) = last_of-row_of p (y ∷ q) (z ∷ b)

recount : {n k : ℕ} {a b : Text} → n ≡ k → Edits n a b → Edits k a b
recount {a = a} {b = b} e edits = subst (λ i. Edits i a b) e edits

-- The same edits, from the other end.
rev_onto-Edits :
    {n m : ℕ} {a b p q : Text}
    → Edits n a b
    → Edits m p q
    → Edits (n + m) (rev_onto a p) (rev_onto b q)
rev_onto-Edits done f = recount (omega arith) f
rev_onto-Edits (keep c e) f = rev_onto-Edits e (keep c f)
rev_onto-Edits (change c d e) f = recount (omega arith) (rev_onto-Edits e (change c d f))
rev_onto-Edits (insert d e) f = recount (omega arith) (rev_onto-Edits e (insert d f))
rev_onto-Edits (remove c e) f = recount (omega arith) (rev_onto-Edits e (remove c f))

min_cases : (a b : ℕ) → (min a b ≡ a) ⊎ (min a b ≡ b)
min_cases a b = ground arith

cell_insert : (p q : Text) (d n : ℕ) → cell p q ≤ n → cell p (d ∷ q) ≤ n + 1
cell_insert [] q d n h = omega arith
cell_insert (x ∷ p) q d n h = ground arith

cell_remove : (p q : Text) (c n : ℕ) → cell p q ≤ n → cell (c ∷ p) q ≤ n + 1
cell_remove p [] c n h = omega (arith, cell_nil p)
cell_remove p (y ∷ q) c n h = ground arith

-- No edits are cheaper than the table says.
cell-le : {n : ℕ} {p q : Text} → Edits n p q → cell p q ≤ n
cell-le done = omega arith
cell-le (keep {a = a} {b = b} c e) = ground (arith, cell-le e)
cell-le (change c d e) = ground (arith, cell-le e)
cell-le (insert {a = a} {b = b} d e) = cell_insert a b d _ (cell-le e)
cell-le (remove {a = a} {b = b} c e) = cell_remove a b c _ (cell-le e)

cheapest :
    {k n m : ℕ} {a b : Text} → Edits k a b → Edits n a b → Edits m a b → Edits (min (min k n) m) a b
cheapest {k} {n} {m} first second third = elim (min_cases (min k n) m) [
  | inr is ↦ recount (sym is) third
  | inl outer ↦ elim (min_cases k n) [
    | inl is ↦ recount (sym (outer ∙ is)) first
    | inr is ↦ recount (sym (outer ∙ is)) second
  ]
]

-- And there are edits that are as cheap.
cell-Edits : (p q : Text) → Edits (cell p q) p q
cell-Edits [] [] = done
cell-Edits [] (y ∷ q) = recount (omega arith) (insert y (cell-Edits [] q))
cell-Edits (x ∷ p) [] = recount (omega (arith, cell_nil p)) (remove x (cell-Edits p []))
cell-Edits (x ∷ p) (y ∷ q) =
    let dropped = remove x (cell-Edits p (y ∷ q)) in
    let added = insert y (cell-Edits (x ∷ p) q) in
    let last : Edits (cell p q + (if x == y then 0 else 1)) (x ∷ p) (y ∷ q) =
      elim (Bool-cases (x == y)) [
        | inl same ↦
            let letter : x ≡ y = ground arith in
            rw same (
              recount (omega arith)
                (subst (λ k. Edits (cell p q) (x ∷ p) (k ∷ q)) letter (keep x (cell-Edits p q))))
        | inr other ↦ rw other (change x y (cell-Edits p q))
      ] in
    cheapest dropped added last

-- The answer for two words: the least number of edits that makes the one the other; or 99, where no two
-- edits are enough.
abbrev pub Distance : Text → Text → ℕ → Type 0
Distance a b d =
    Edits d a b × ((n : ℕ) → Edits n a b → d ≤ n) ⊎ (d ≡ 99) × ((n : ℕ) → Edits n a b → 2 < n)

Edits-length :
    {n : ℕ} {a b : Text} → Edits n a b → (length a ≤ length b + n) × (length b ≤ length a + n)
Edits-length done = (omega arith, omega arith)
Edits-length (keep c e) = let h = Edits-length e in (omega arith, omega arith)
Edits-length (change c d e) = let h = Edits-length e in (omega arith, omega arith)
Edits-length (insert d e) = let h = Edits-length e in (omega arith, omega arith)
Edits-length (remove c e) = let h = Edits-length e in (omega arith, omega arith)

table_lem :
    (a b : Text) → last_of (fill_rows 0 a b (first_row 0 b)) ≡ cell (rev_onto a []) (rev_onto b [])
table_lem a b =
    ap (λ k. last_of (fill_rows 0 a b k)) (first_row-row_of [] b)
    ∙ ap last_of (fill_rows-row_of a b [])
    ∙ last_of-row_of (rev_onto a []) [] b

-- `levenshtein_dist` is the least number of letters to insert, drop or change to make the one word the
-- other; or it is 99, where that number is above 2.
pub levenshtein_dist-Distance : (a b : Text) → Distance a b (levenshtein_dist a b)
unfolding levenshtein_dist
levenshtein_dist-Distance a b = elim (Bool-cases (far_apart a b)) [
  | inl far ↦ rw far (inr (refl, λ n e. let h = Edits-length e in ground arith))
  | inr near ↦
      let turned = cell-Edits (rev_onto a []) (rev_onto b []) in
      let back = rev_onto-Edits turned done in
      rw (near, table_lem a b)
        (inl (
          recount (omega arith) (subst₂ (Edits _) (rev_onto_back a []) (rev_onto_back b []) back),
          λ n e. let least = cell-le (rev_onto-Edits e done) in omega arith,
        ))
]
