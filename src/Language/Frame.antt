-- ===== src/Language/Frame.antt =====
-- What `perceive` (src/core/fpsan_language.h) changes.
use engram_core.Prelude.{
  ℕ, ◌≤◌, ◌≡◌, refl, sym, subst, ◌⊎◌, inl, inr, List, [], ◌∷◌, Bool, false, not, ◌&&◌, Option, none,
  some, leb, Bool-cases, ◌==◌, ==_iff, ==_self, if◌then◌else◌, ℤ, pos, minus_one, Text, All, arith,
}
use engram_core.Prelude.Float.{Float}
use engram_core.Memory.{Cluster, lang_clusters}
use engram_core.Language.{
  freeze_after, weight_of, weights_of, train, settle, winner, scan, scan_start, perceive,
}

abbrev pub IsSpike : ℤ → Type 0
IsSpike z = (z ≡ minus_one) ⊎ ((z ≡ pos 0) ⊎ (z ≡ pos 1))

-- Whether the answer is cluster `i`.
abbrev pub is_answer : Option ℕ → ℕ → Bool
is_answer none i = false
is_answer (some b) i = i == b

module _ (F : Float) where
  weight_of-IsSpike : (a : F.Carrier) → IsSpike (weight_of F a)
  weight_of-IsSpike a = elim (Bool-cases (F.ltb (F.lit 4 10) a)) [
    | inl high ↦ rw high (inr (inr refl))
    | inr not_high ↦ elim (Bool-cases (F.ltb a (F.neg (F.lit 4 10)))) [
      | inl low ↦ rw (not_high, low) (inl refl)
      | inr middle ↦ rw (not_high, middle) (inr (inl refl))
    ]
  ]

  weights_of-IsSpike : (accum : List F.Carrier) → All IsSpike (weights_of F accum)
  unfolding weights_of
  weights_of-IsSpike [] = tt
  weights_of-IsSpike (a ∷ accum) = (weight_of-IsSpike a, weights_of-IsSpike accum)

module _ {F : Float} where
  -- A cluster is frozen just when it has five samples, it has no more, and its weights are spikes.
  pub record IsCluster (c : Cluster F) : Type 0 where
    pub few : c.sample_count ≤ freeze_after
    pub freezes : c.frozen ≡ leb freeze_after c.sample_count
    pub spikes : All IsSpike c.weights

  train-IsCluster :
      (input : List ℤ) (word : Option Text) (c : Cluster F)
      → IsCluster c
      → c.frozen ≡ false
      → IsCluster (train input word c)
  unfolding train
  train-IsCluster input word c is thawed = record {
    few = ground (arith, is.few, is.freezes);
    freezes = rw thawed refl;
    spikes = weights_of-IsSpike F _;
  }

  -- The answer is trained when the cortex learns and it is not frozen; all other clusters stay.
  abbrev pub Settled :
      List ℤ → Bool → Option Text → (ℕ → Cluster F) → (ℕ → Cluster F) × Option ℕ → Type 0
  Settled input learn word clusters (after, answer) =
      (i : ℕ)
      → after i ≡ (
          if is_answer answer i && (learn && not (clusters i).frozen)
          then train input word (clusters i)
          else clusters i)

  settle-Settled :
      (input : List ℤ) (learn : Bool) (word : Option Text) (clusters : ℕ → Cluster F) (o : Option ℕ)
      → Settled input learn word clusters (settle input learn word clusters o)
  unfolding settle
  settle-Settled input learn word clusters none i = refl
  settle-Settled input learn word clusters (some b) i = elim (Bool-cases (i == b)) [
    | inl here ↦
        let same : i ≡ b = (==_iff i b).0 here in
        elim (Bool-cases (learn && not (clusters b).frozen)) [
          | inl trains ↦ rw (trains, same, ==_self b, trains) refl
          | inr keeps ↦ rw (keeps, same, ==_self b, keeps) refl
        ]
    | inr there ↦ elim (Bool-cases (learn && not (clusters b).frozen)) [
      | inl trains ↦ rw (trains, there) refl
      | inr keeps ↦ rw (keeps, there) refl
    ]
  ]

  settled-IsCluster :
      (input : List ℤ) (word : Option Text) (c : Cluster F) (chosen learn : Bool)
      → IsCluster c
      → IsCluster (if chosen && (learn && not c.frozen) then train input word c else c)
  settled-IsCluster input word c chosen learn is =
      elim (Bool-cases (chosen && (learn && not c.frozen))) [
        | inl trains ↦
            let thawed : c.frozen ≡ false = ground arith in
            rw trains (train-IsCluster input word c is thawed)
        | inr keeps ↦ rw keeps is
      ]

  -- Where all clusters are sound (frozen just at five samples, no more samples than that, and all
  -- weights -1, 0 or 1): `perceive` trains the cluster of its answer just when the cortex learns and
  -- that cluster is not frozen, leaves every other cluster as it is, and all clusters stay sound.
  pub perceive-Settled :
      (input : List ℤ) (learn : Bool) (word : Option Text) (clusters : ℕ → Cluster F)
      → ((i : ℕ) → IsCluster (clusters i))
      → Settled input learn word clusters (perceive input learn word clusters)
        × ((i : ℕ) → IsCluster ((perceive input learn word clusters).0 i))
  unfolding perceive
  perceive-Settled input learn word clusters sound =
      let settled =
        settle-Settled input learn word clusters
          (winner learn (scan input clusters 0 lang_clusters (scan_start F))) in
      (
        settled,
        λ i.
            subst IsCluster (sym (settled i))
              (settled-IsCluster input word (clusters i) _ learn (sound i)),
      )
