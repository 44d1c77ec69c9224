-- ===== src/Drives/Words.antt =====
-- The unknown words of src/core/fpsan_drives.h: what the list holds, and which word a pop yields.
use engram_core.Prelude.{
  Text, same_text, same_text_sym, ℕ, zero, suc, ◌≤◌, ◌<◌, ◌≡◌, refl, sym, ap, List, [], ◌∷◌, ◌++◌,
  append_assoc, true, false, ◌||◌, none, some, ltb, length, length-append, take, All, All-append,
  subst, Bool-cases, inl, inr, arith,
}
use engram_core.Prelude.Float.{Float}
use engram_core.Drives.{
  tracked, track, split_last, HomeostaticDrives, on_unknown_word, pop_question, pop_fetch_topic,
}

take_all : {A : Type 0} (n : ℕ) (w : List A) → length w ≤ n → take n w ≡ w
take_all zero [] h = refl
take_all zero (c ∷ w) h = let no : ⊥ = omega arith in elim no [ ]
take_all (suc n) [] h = refl
take_all (suc n) (c ∷ w) h = ap (◌∷◌ c) (take_all n w (omega arith))

tracked-append :
    (x w : Text) (ws : List Text) → tracked x (ws ++ (w ∷ [])) ≡ tracked x ws || same_text w x
unfolding tracked
tracked-append x w [] = ground arith
tracked-append x w (y ∷ ws) = rw (tracked-append x w ws) (ground arith)

abbrev pub Distinct : List Text → Type 0
Distinct [] = Unit
Distinct (x ∷ xs) = (tracked x xs ≡ false) × Distinct xs

Distinct-append :
    (w : Text) (ws : List Text) → tracked w ws ≡ false → Distinct ws → Distinct (ws ++ (w ∷ []))
unfolding tracked
Distinct-append w [] h d = (refl, tt)
Distinct-append w (x ∷ ws) h d =
    let other : same_text w x ≡ false = rw (same_text_sym w x) (ground arith) in
    (rw (tracked-append x w ws) (ground (arith, d.0)), Distinct-append w ws (ground arith) d.1)

-- At most eight words of at most 63 bytes, no two of them the same.
pub record IsTracked (ws : List Text) : Type 0 where
  pub few : length ws ≤ 8
  pub short : All (λ w. length w ≤ 63) ws
  pub distinct : Distinct ws

track-IsTracked :
    (w : Text) (ws : List Text) → length w ≤ 63 → IsTracked ws → IsTracked (track w ws)
unfolding track
track-IsTracked w ws fits h = elim (Bool-cases (tracked w ws)) [
  | inl known ↦ rw known h
  | inr new ↦ elim (Bool-cases (ltb (length ws) 8)) [
    | inr full ↦ rw (new, full) h
    | inl room ↦
        rw (new, room, take_all 63 w fits)
          (record {
            few = let n = h.few in rw (length-append ws (w ∷ [])) (ground arith);
            short = All-append _ ws (w ∷ []) h.short (fits, tt);
            distinct = Distinct-append w ws new h.distinct;
          })
  ]
]

split_last-append :
    (w : Text) (ws : List Text) → (split_last w ws).0 ++ ((split_last w ws).1 ∷ []) ≡ w ∷ ws
unfolding split_last
split_last-append w [] = refl
split_last-append w (x ∷ xs) = ap (◌∷◌ w) (split_last-append x xs)

split_last_snoc : (w x : Text) (ws : List Text) → split_last w (ws ++ (x ∷ [])) ≡ (w ∷ ws, x)
unfolding split_last
split_last_snoc w x [] = refl
split_last_snoc w x (y ∷ ws) = rw (split_last_snoc y x ws) refl

prefix-Distinct : (w : Text) (ws : List Text) → Distinct (ws ++ (w ∷ [])) → Distinct ws
prefix-Distinct w [] d = tt
prefix-Distinct w (x ∷ ws) d =
    (ground (arith, d.0, tracked-append x w ws), prefix-Distinct w ws d.1)

prefix-All : {A : Type 0} (P : A → Type 0) (x : A) (xs : List A) → All P (xs ++ (x ∷ [])) → All P xs
prefix-All P x [] h = tt
prefix-All P x (y ∷ xs) h = (h.0, prefix-All P x xs h.1)

front-IsTracked : (w : Text) (ws : List Text) → IsTracked (w ∷ ws) → IsTracked (split_last w ws).0
front-IsTracked w ws h =
    let (front, last) = split_last w ws in
    prefix (split_last w ws).1 (split_last w ws).0
      (subst IsTracked (sym (split_last-append w ws)) h)
  where
    prefix : (x : Text) (xs : List Text) → IsTracked (xs ++ (x ∷ [])) → IsTracked xs
    prefix x xs v = record {
      few = let n = v.few in omega (arith, length-append xs (x ∷ []));
      short = prefix-All _ x xs v.short;
      distinct = prefix-Distinct x xs v.distinct;
    }

rest-IsTracked : (w : Text) (ws : List Text) → IsTracked (w ∷ ws) → IsTracked ws
rest-IsTracked w ws v = record {
  few = let n = v.few in omega arith;
  short = v.short.1;
  distinct = v.distinct.1;
}

same_text-length : (a b : Text) → same_text a b ≡ true → length a ≡ length b
unfolding same_text
same_text-length [] [] h = refl
same_text-length [] (b ∷ w) h = cc
same_text-length (a ∷ v) [] h = cc
same_text-length (a ∷ v) (b ∷ w) h = ap suc (same_text-length v w (ground arith))

tracked_long :
    (w : Text) (ws : List Text) → 63 < length w → All (λ v. length v ≤ 63) ws → tracked w ws ≡ false
unfolding tracked
tracked_long w [] long short = refl
tracked_long w (x ∷ ws) long short =
    rw (tracked_long w ws long short.1) (elim (Bool-cases (same_text x w)) [
      | inl same ↦ let no : ⊥ = omega (arith, same_text-length x w same, short.0) in elim no [ ]
      | inr other ↦ rw other refl
    ])

length-take-le : {A : Type 0} (n : ℕ) (w : List A) → length (take n w) ≤ n
length-take-le zero w = omega arith
length-take-le (suc n) [] = omega arith
length-take-le (suc n) (c ∷ w) = omega (arith, length-take-le n w)

module _ {F : Float} where
  -- Where the words are tracked and the new word has at most 63 bytes, the words stay tracked: at most
  -- eight, no two of them the same, whether a word is heard, asked about or fetched.
  pub words-IsTracked :
      (w : Text) (d : HomeostaticDrives F)
      → length w ≤ 63
      → IsTracked d.unknown_words
      → IsTracked (on_unknown_word F w d).unknown_words
        × IsTracked (pop_question F d).0.unknown_words
        × IsTracked (pop_fetch_topic F d).0.unknown_words
  unfolding on_unknown_word
  words-IsTracked w d fits h = (
    track-IsTracked w d.unknown_words fits h,
    asked d.unknown_words refl,
    fetched d.unknown_words refl,
  )
    where
      asked : (ws : List Text) → d.unknown_words ≡ ws → IsTracked (pop_question F d).0.unknown_words
      asked [] e = unfold pop_question in rw e (subst IsTracked e h)
      asked (x ∷ ws) e = unfold pop_question in rw e (front-IsTracked x ws (subst IsTracked e h))

      fetched :
          (ws : List Text) → d.unknown_words ≡ ws → IsTracked (pop_fetch_topic F d).0.unknown_words
      fetched [] e = unfold pop_fetch_topic in rw e (subst IsTracked e h)
      fetched (x ∷ ws) e =
          unfold pop_fetch_topic in rw e (rest-IsTracked x ws (subst IsTracked e h))

  -- The two pops take opposite ends: `pop_question` yields the youngest word, and `pop_fetch_topic` the
  -- oldest, cut to 63 bytes; on an empty list both yield none and change nothing.
  pub both_ends :
      (old young : Text) (ws : List Text) (d : HomeostaticDrives F)
      → (d.unknown_words ≡ old ∷ (ws ++ (young ∷ []))
          → (pop_question F d ≡ (record d { unknown_words = old ∷ ws }, some young))
            × (pop_fetch_topic F d
                ≡ (record d { unknown_words = ws ++ (young ∷ []) }, some (take 63 old))))
        × (d.unknown_words ≡ []
            → (pop_question F d ≡ (d, none)) × (pop_fetch_topic F d ≡ (d, none)))
  unfolding pop_question pop_fetch_topic
  both_ends old young ws d =
      (λ e. (rw (e, split_last_snoc old young ws) refl, rw e refl), λ e. (rw e refl, rw e refl))

  -- A word of more than 63 bytes is never found in the list, so it is stored each time it is heard.
  pub long_word_repeats :
      (w : Text) (d : HomeostaticDrives F)
      → 63 < length w
      → length d.unknown_words ≤ 6
      → All (λ v. length v ≤ 63) d.unknown_words
      → (on_unknown_word F w (on_unknown_word F w d)).unknown_words
        ≡ d.unknown_words ++ (take 63 w ∷ take 63 w ∷ [])
  unfolding on_unknown_word track
  long_word_repeats w d long few short =
      let first = tracked_long w d.unknown_words long short in
      let second =
        tracked_long w (d.unknown_words ++ (take 63 w ∷ [])) long
          (All-append _ d.unknown_words (take 63 w ∷ []) short (length-take-le 63 w, tt)) in
      let room : ltb (length d.unknown_words) 8 ≡ true = ground arith in
      let more : ltb (length (d.unknown_words ++ (take 63 w ∷ []))) 8 ≡ true =
        rw (length-append d.unknown_words (take 63 w ∷ [])) (ground arith) in
      rw (first, room, second, more, append_assoc d.unknown_words (take 63 w ∷ []) (take 63 w ∷ []))
        refl
