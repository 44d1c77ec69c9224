-- ===== src/Language/Choice.antt =====
-- Which cluster `perceive` (src/core/fpsan_language.h) answers.
use engram_core.Prelude.{
  ℕ, zero, suc, ◌+◌, ◌<◌, ◌≡◌, ◌∙◌, refl, ap, subst, ◌⊎◌, inl, inr, List, Bool, true, false, not,
  ◌&&◌, Option, none, some, ltb, Bool-cases, dec_lt, ℤ, Text, arith,
}
use engram_core.Prelude.Float.{Float, IsOrder}
use engram_core.Memory.{Cluster, lang_clusters}
use engram_core.Language.{
  overlap, similarity, vigilance, Scan, scan_start, scan_step, scan, winner, settle, perceive,
  or_first, is_some,
}

module _ {F : Float} (input : List ℤ) (clusters : ℕ → Cluster F) where
  abbrev pub sim_of : ℕ → F.Carrier
  sim_of i = let (hits, misses) = overlap input (clusters i).weights in similarity F hits misses

  -- A cluster that can be compared with the input.
  abbrev pub Comparable : ℕ → Type 0
  Comparable i =
      ((clusters i).active ≡ true)
      × (let (hits, misses) = overlap input (clusters i).weights in 0 < hits + misses)

  -- `top` is the highest similarity below `n`, and that of `best`; with no cluster to compare it is
  -- the start.
  pub record Peak (n : ℕ) (top : F.Carrier) (best : Option ℕ) : Type 0 where
    pub bounds : (j : ℕ) → j < n → Comparable j → F.ltb top (sim_of j) ≡ false
    pub reached :
        (best ≡ none) × (top ≡ F.neg (F.lit 9999 1))
        ⊎ (b : ℕ) × (best ≡ some b) × (b < n) × Comparable b × (sim_of b ≡ top)

  -- The first inactive cluster below `n`.
  abbrev pub FirstEmpty : ℕ → Option ℕ → Type 0
  FirstEmpty n none = (j : ℕ) → j < n → (clusters j).active ≡ true
  FirstEmpty n (some k) =
      (k < n) × ((clusters k).active ≡ false) × ((j : ℕ) → j < k → (clusters j).active ≡ true)

  abbrev Scanned : ℕ → Scan F → Type 0
  Scanned n s = Peak n s.best_sim s.best × FirstEmpty n s.first_empty

  start-Scanned : Scanned 0 (scan_start F)
  start-Scanned = (
    record { bounds = λ j lt c. absurd (omega arith); reached = inl (refl, refl) },
    λ j lt. absurd (omega arith),
  )

  first_later :
      (n : ℕ) (o : Option ℕ) → (clusters n).active ≡ true → FirstEmpty n o → FirstEmpty (suc n) o
  first_later n none on h = λ j lt. elim (dec_lt j n) [
    | yes below ↦ h j below
    | no at ↦ let here : j ≡ n = omega arith in ap (λ k. (clusters k).active) here ∙ on
  ]
  first_later n (some k) on h = (omega (arith, h.0), h.1, h.2)

  first_here :
      (n : ℕ) (o : Option ℕ)
      → (clusters n).active ≡ false
      → FirstEmpty n o
      → FirstEmpty (suc n) (or_first o n)
  first_here n none off h = (omega arith, off, h)
  first_here n (some k) off h = (omega (arith, h.0), h.1, h.2)

  -- A cluster that does not raise the peak.
  Peak-stays :
      (n : ℕ) (top : F.Carrier) (best : Option ℕ)
      → (Comparable n → F.ltb top (sim_of n) ≡ false)
      → Peak n top best
      → Peak (suc n) top best
  Peak-stays n top best low p = record {
    bounds = λ j lt c. elim (dec_lt j n) [
      | yes below ↦ p.bounds j below c
      | no at ↦
          let here : n ≡ j = omega arith in
          subst (λ k. Comparable k → F.ltb top (sim_of k) ≡ false) here low c
    ];
    reached = elim p.reached [
      | inl start ↦ inl start
      | inr (b, is, lt, c, e) ↦ inr (b, is, omega arith, c, e)
    ];
  }

  Peak-rises :
      IsOrder F
      → (n : ℕ) (top : F.Carrier) (best : Option ℕ) → Comparable n
      → F.ltb top (sim_of n) ≡ true
      → Peak n top best
      → Peak (suc n) (sim_of n) (some n)
  Peak-rises order n top best here above p = record {
    bounds = λ j lt c. elim (dec_lt j n) [
      | yes below ↦
          order.ge_trans (sim_of n) top (sim_of j) (order.asymm top (sim_of n) above)
            (p.bounds j below c)
      | no at ↦
          let same : n ≡ j = omega arith in
          subst (λ k. F.ltb (sim_of n) (sim_of k) ≡ false) same (order.irrefl (sim_of n))
    ];
    reached = inr (n, refl, omega arith, here, refl);
  }

  scan_step-Scanned :
      IsOrder F
      → (n : ℕ) (s : Scan F) → Scanned n s
      → Scanned (suc n) (scan_step input n (clusters n) s)
  unfolding scan_step
  scan_step-Scanned order n s h =
      let hits = (overlap input (clusters n).weights).0 in
      let misses = (overlap input (clusters n).weights).1 in
      elim (Bool-cases (clusters n).active) [
        | inr off ↦
            rw off
              (Peak-stays n s.best_sim s.best (λ c. cc) h.0, first_here n s.first_empty off h.1)
        | inl on ↦ elim (Bool-cases (ltb 0 (hits + misses) && F.ltb s.best_sim (sim_of n))) [
          | inl up ↦
              rw (on, up)
                (
                  Peak-rises order n s.best_sim s.best (on, ground arith) (ground arith) h.0,
                  first_later n s.first_empty on h.1,
                )
          | inr stay ↦
              rw (on, stay)
                (
                  Peak-stays n s.best_sim s.best (λ c. let some_spike = c.1 in ground arith) h.0,
                  first_later n s.first_empty on h.1,
                )
        ]
      ]

  scan-Scanned :
      IsOrder F
      → (rest n : ℕ) (s : Scan F) → Scanned n s
      → Scanned (n + rest) (scan input clusters n rest s)
  unfolding scan
  scan-Scanned order zero n s h = let e : n + 0 ≡ n = omega arith in rw e h
  scan-Scanned order (suc rest) n s h =
      let ih =
        scan-Scanned order rest (n + 1) (scan_step input n (clusters n) s)
          (let e : n + 1 ≡ suc n = omega arith in rw e (scan_step-Scanned order n s h)) in
      let e : n + suc rest ≡ n + 1 + rest = omega arith in rw e ih

  -- The highest similarity, where it was reached, and what follows from it.
  abbrev pub Chosen : Bool → Option ℕ → Type 0
  Chosen learn answer =
      (top : F.Carrier) × (best : Option ℕ) × Peak lang_clusters top best
      × ((F.ltb top (vigilance F) ≡ true)
            × (learn ≡ true)
            × ((k : ℕ) × (answer ≡ some k) × FirstEmpty lang_clusters (some k))
          ⊎ ((F.ltb top (vigilance F) ≡ true) × (learn ≡ false) × (answer ≡ none)
              ⊎ (answer ≡ best)
                × ((F.ltb top (vigilance F) ≡ false)
                    ⊎ (learn ≡ true) × FirstEmpty lang_clusters none)))

  winner-Chosen :
      (learn : Bool) (s : Scan F) → Scanned lang_clusters s → Chosen learn (winner learn s)
  unfolding winner
  winner-Chosen learn s h = (
    s.best_sim,
    s.best,
    h.0,
    elim (Bool-cases (F.ltb s.best_sim (vigilance F))) [
      | inr sure ↦ inr (inr (rw sure (refl, inl refl)))
      | inl unsure ↦ elim (Bool-cases learn) [
        | inr still ↦
            let no_slot : (is_some s.first_empty && false) ≡ false = off (is_some s.first_empty) in
            inr (inl (unsure, still, rw (unsure, still, no_slot) refl))
        | inl learns ↦ room unsure learns s.first_empty refl h.1
      ]
    ],
  )
    where
      off : (b : Bool) → (b && false) ≡ false
      off true = refl
      off false = refl

      room :
          F.ltb s.best_sim (vigilance F) ≡ true
          → learn ≡ true
          → (o : Option ℕ) → s.first_empty ≡ o
          → FirstEmpty lang_clusters o
          → (F.ltb s.best_sim (vigilance F) ≡ true)
              × (learn ≡ true)
              × ((k : ℕ) × (winner learn s ≡ some k) × FirstEmpty lang_clusters (some k))
            ⊎ ((F.ltb s.best_sim (vigilance F) ≡ true) × (learn ≡ false) × (winner learn s ≡ none)
                ⊎ (winner learn s ≡ s.best)
                  × ((F.ltb s.best_sim (vigilance F) ≡ false)
                      ⊎ (learn ≡ true) × FirstEmpty lang_clusters none))
      room u l none e f = inr (inr (rw (u, l, e) refl, inr (l, f)))
      room u l (some k) e f = inl (u, l, (k, rw (u, l, e) refl, f))

  settle_answer :
      (learn : Bool) (word : Option Text) (o : Option ℕ)
      → (settle input learn word clusters o).1 ≡ o
  unfolding settle
  settle_answer learn word none = refl
  settle_answer learn word (some b) = elim (Bool-cases (learn && not (clusters b).frozen)) [
    | inl trains ↦ rw trains refl
    | inr keeps ↦ rw keeps refl
  ]

  -- Under an ordered float arithmetic, with the highest similarity below 0.85 the answer of
  -- `perceive` is the first inactive cluster where it learns and there is one, and -1 where it
  -- does not learn. In every other case it is the most similar cluster, also where it is below
  -- 0.85 because all clusters are active.
  pub perceive-Chosen :
      IsOrder F
      → (learn : Bool) (word : Option Text) → Chosen learn (perceive input learn word clusters).1
  unfolding perceive
  perceive-Chosen order learn word =
      let all = scan-Scanned order lang_clusters 0 (scan_start F) start-Scanned in
      let found = scan input clusters 0 lang_clusters (scan_start F) in
      rw (settle_answer learn word (winner learn found)) (winner-Chosen learn found all)
