-- ===== src/Prelude/Lists.antt =====
-- Lists with native indices: lengths, reads, writes, prefixes, suffixes, and predicates by recursion.
use Prim.Native.Nat.{ℕ, zero, suc, ◌+◌, ◌-◌, ◌≤◌, ◌<◌, min}
use mathlib.Core.Path.{◌≡◌, refl, ap}
use mathlib.Core.List.{List, [], ◌∷◌, ◌++◌, map, reverse, reverse-cons}
use mathlib.Core.Option.{Option, none, some}
use mathlib.Core.Bool.{Bool, true, false}
use native.Mathlib.Omega.{arith}
use engram_core.Prelude.Tests.{if◌then◌else◌}

module _ {ℓ} {A : Type ℓ} where
  abbrev pub length : List A → ℕ
  length [] = 0
  length (x ∷ xs) = suc (length xs)

  abbrev pub get_elem? : List A → ℕ → Option A
  get_elem? [] i = none
  get_elem? (x ∷ xs) zero = some x
  get_elem? (x ∷ xs) (suc i) = get_elem? xs i

  -- A write out of bounds changes nothing.
  abbrev pub set : List A → ℕ → A → List A
  set [] i v = []
  set (x ∷ xs) zero v = v ∷ xs
  set (x ∷ xs) (suc i) v = x ∷ set xs i v

  abbrev pub take : ℕ → List A → List A
  take zero xs = []
  take (suc n) [] = []
  take (suc n) (x ∷ xs) = x ∷ take n xs

  abbrev pub drop : ℕ → List A → List A
  drop zero xs = xs
  drop (suc n) [] = []
  drop (suc n) (x ∷ xs) = drop n xs

  pub length-append : (xs ys : List A) → length (xs ++ ys) ≡ length xs + length ys
  length-append [] ys = omega arith
  length-append (x ∷ xs) ys = omega (arith, length-append xs ys)

  pub length-reverse : (xs : List A) → length (reverse xs) ≡ length xs
  length-reverse [] = refl
  length-reverse (x ∷ xs) =
      omega (
        arith,
        ap length (reverse-cons x xs),
        length-append (reverse xs) (x ∷ []),
        length-reverse xs,
      )

  pub length-set : (xs : List A) (i : ℕ) (v : A) → length (set xs i v) ≡ length xs
  length-set [] i v = refl
  length-set (x ∷ xs) zero v = refl
  length-set (x ∷ xs) (suc i) v = ap suc (length-set xs i v)

  abbrev pub All {κ} : (A → Type κ) → List A → Type κ
  All P [] = Unit
  All P (x ∷ xs) = P x × All P xs

  abbrev pub filterb : (A → Bool) → List A → List A
  filterb p [] = []
  filterb p (x ∷ xs) = if p x then x ∷ filterb p xs else filterb p xs

  pub All-append {κ} : (P : A → Type κ) (xs ys : List A) → All P xs → All P ys → All P (xs ++ ys)
  All-append P [] ys hx hy = hy
  All-append P (x ∷ xs) ys hx hy = (hx.0, All-append P xs ys hx.1 hy)

  -- How many elements pass a test.
  abbrev pub countb : (A → Bool) → List A → ℕ
  countb p [] = 0
  countb p (x ∷ xs) = if p x then suc (countb p xs) else countb p xs

  pub countb-append :
      (p : A → Bool) (xs ys : List A) → countb p (xs ++ ys) ≡ countb p xs + countb p ys
  countb-append p [] ys = omega arith
  countb-append p (x ∷ xs) ys = ground (arith, countb-append p xs ys)

  pub countb-reverse : (p : A → Bool) (xs : List A) → countb p (reverse xs) ≡ countb p xs
  countb-reverse p [] = refl
  countb-reverse p (x ∷ xs) =
      rw (reverse-cons x xs, countb-append p (reverse xs) (x ∷ []))
        (ground (arith, countb-reverse p xs))

  pub countb-filterb-le : (p q : A → Bool) (xs : List A) → countb p (filterb q xs) ≤ countb p xs
  countb-filterb-le p q [] = omega arith
  countb-filterb-le p q (x ∷ xs) = ground (arith, countb-filterb-le p q xs)

  -- A filter that is weaker than the test loses nothing that passes the test.
  pub countb-filterb_of_imp :
      (p q : A → Bool) (xs : List A)
      → ((x : A) → p x ≡ true → q x ≡ true)
      → countb p (filterb q xs) ≡ countb p xs
  countb-filterb_of_imp p q [] h = refl
  countb-filterb_of_imp p q (x ∷ xs) h = ground (arith, countb-filterb_of_imp p q xs h, h x)

  pub length-filterb-le : (q : A → Bool) (xs : List A) → length (filterb q xs) ≤ length xs
  length-filterb-le q [] = omega arith
  length-filterb-le q (x ∷ xs) = ground (arith, length-filterb-le q xs)

  pub All-filterb {κ} :
      (P : A → Type κ) (q : A → Bool) (xs : List A) → All P xs → All P (filterb q xs)
  All-filterb P q [] h = h
  All-filterb P q (x ∷ xs) h = keep (q x) (All-filterb P q xs h.1)
    where
      keep :
          (b : Bool) → All P (filterb q xs) → All P (if b then x ∷ filterb q xs else filterb q xs)
      keep true rest = (h.0, rest)
      keep false rest = rest

  pub countb-set-le :
      (p : A → Bool) (xs : List A) (i : ℕ) (v : A)
      → countb p (set xs i v) ≤ countb p xs + countb p (v ∷ [])
  countb-set-le p [] i v = omega arith
  countb-set-le p (x ∷ xs) zero v = ground arith
  countb-set-le p (x ∷ xs) (suc i) v = ground (arith, countb-set-le p xs i v)

  -- The first element that passes.
  abbrev pub find : (A → Bool) → List A → Option A
  find p [] = none
  find p (x ∷ xs) = if p x then some x else find p xs

  abbrev pub or_else : Option A → Option A → Option A
  or_else (some x) o = some x
  or_else none o = o

  pub find-none : (p : A → Bool) (xs : List A) → countb p xs ≡ 0 → find p xs ≡ none
  find-none p [] h = refl
  find-none p (x ∷ xs) h = ground (arith, find-none p xs)

  pub find-append :
      (p : A → Bool) (xs ys : List A) → find p (xs ++ ys) ≡ or_else (find p xs) (find p ys)
  find-append p [] ys = refl
  find-append p (x ∷ xs) ys = ground (arith, find-append p xs ys)

  -- Where at most one element passes, its place does not matter.
  pub find-reverse :
      (p : A → Bool) (xs : List A) → countb p xs ≤ 1 → find p (reverse xs) ≡ find p xs
  find-reverse p [] h = refl
  find-reverse p (x ∷ xs) h =
      rw (reverse-cons x xs, find-append p (reverse xs) (x ∷ []))
        (ground (arith, find-reverse p xs, find-none p xs))

  pub find-set :
      (p : A → Bool) (xs : List A) (i : ℕ) (v : A)
      → countb p xs ≡ 0
      → p v ≡ true
      → i < length xs
      → find p (set xs i v) ≡ some v
  find-set p [] i v h q lt = absurd (omega arith)
  find-set p (x ∷ xs) zero v h q lt = rw q
  find-set p (x ∷ xs) (suc i) v h q lt = ground (arith, find-set p xs i v)

  pub get_elem?-some : (xs : List A) (i : ℕ) → i < length xs → (a : A) × (get_elem? xs i ≡ some a)
  get_elem?-some [] i h = absurd (omega arith)
  get_elem?-some (x ∷ xs) zero h = (x, refl)
  get_elem?-some (x ∷ xs) (suc i) h = get_elem?-some xs i (omega arith)

  -- Every element passes.
  abbrev pub allb : (A → Bool) → List A → Bool
  allb p [] = true
  allb p (x ∷ xs) = if p x then allb p xs else false

  pub allb→All : (p : A → Bool) (xs : List A) → allb p xs ≡ true → All (λ x. p x ≡ true) xs
  allb→All p [] h = tt
  allb→All p (x ∷ xs) h = (ground arith, allb→All p xs (ground arith))

  pub All→allb : (p : A → Bool) (xs : List A) → All (λ x. p x ≡ true) xs → allb p xs ≡ true
  All→allb p [] h = refl
  All→allb p (x ∷ xs) h = rw h.0 (All→allb p xs h.1)

  pub take-append :
      (n : ℕ) (xs ys : List A) → take n (xs ++ ys) ≡ take n xs ++ take (n - length xs) ys
  take-append zero [] ys = refl
  take-append zero (x ∷ xs) ys = let e : 0 - suc (length xs) ≡ 0 = omega arith in rw e
  take-append (suc n) [] ys = let e : suc n - 0 ≡ suc n = omega arith in rw e
  take-append (suc n) (x ∷ xs) ys =
      let e : suc n - suc (length xs) ≡ n - length xs = omega arith in
      rw e (ap (◌∷◌ x) (take-append n xs ys))

  pub take_all : (n : ℕ) (xs : List A) → length xs ≤ n → take n xs ≡ xs
  take_all zero [] h = refl
  take_all zero (x ∷ xs) h = absurd (omega arith)
  take_all (suc n) [] h = refl
  take_all (suc n) (x ∷ xs) h = ap (◌∷◌ x) (take_all n xs (omega arith))

  pub length-take : (n : ℕ) (xs : List A) → length (take n xs) ≡ min n (length xs)
  length-take zero xs = omega arith
  length-take (suc n) [] = omega arith
  length-take (suc n) (x ∷ xs) = omega (arith, length-take n xs)

module _ {ℓ κ} {A : Type ℓ} {B : Type κ} (f : A → B) where
  pub length-map : (xs : List A) → length (map f xs) ≡ length xs
  length-map [] = refl
  length-map (x ∷ xs) = ap suc (length-map xs)

  pub map_append : (xs ys : List A) → map f (xs ++ ys) ≡ map f xs ++ map f ys
  map_append [] ys = refl
  map_append (x ∷ xs) ys = ap (◌∷◌ (f x)) (map_append xs ys)

module _ {ℓ} {A : Type ℓ} where
  pub take-drop : (n : ℕ) (xs : List A) → take n xs ++ drop n xs ≡ xs
  take-drop zero xs = refl
  take-drop (suc n) [] = refl
  take-drop (suc n) (x ∷ xs) = ap (◌∷◌ x) (take-drop n xs)

  pub length-drop : (n : ℕ) (xs : List A) → length (drop n xs) ≡ length xs - n
  length-drop zero xs = omega arith
  length-drop (suc n) [] = omega arith
  length-drop (suc n) (x ∷ xs) = omega (arith, length-drop n xs)
