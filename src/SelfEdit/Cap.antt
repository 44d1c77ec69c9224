-- ===== src/SelfEdit/Cap.antt =====
-- The caps and the identity of artefacts in src/core/fpsan_self_edit_registry.h.
use engram_core.Prelude.{
  ℕ, zero, suc, ◌+◌, ◌%◌, ◌^◌, ◌≤◌, ◌<◌, ◌≡◌, refl, ap, ◌∙◌, ◌≢◌, inl, inr, List, [], ◌∷◌, ◌++◌,
  Bool, true, false, Option, none, some, ltb, ◌==◌, if◌then◌else◌, take, Text, same_text,
  same_text_sym, same_text_trans, All, All-append, find, countb, countb-append, Bool-cases, arith,
  length,
}
use engram_core.SelfEdit.{
  SelfEditRecord, SelfEditRegistry, is_live, live_bytes, total_bytes_disk, is_artefact, touch_first,
  refreshed, new_record, register_or_touch, total_cap, per_artefact_cap, touched, created,
}

-- No record is above the artefact's cap, and no path has two live records.
pub record IsRegistered (rs : List SelfEditRecord) : Type 0 where
  pub small : All (λ r. r.bytes_disk ≤ per_artefact_cap) rs
  pub unique : (path : Text) → countb (is_artefact path) rs ≤ 1

live_bytes-append :
    (rs : List SelfEditRecord) (q : SelfEditRecord)
    → is_live q ≡ true
    → live_bytes (rs ++ (q ∷ [])) ≡ live_bytes rs + q.bytes_disk
unfolding live_bytes
live_bytes-append [] q h = rw h (omega arith)
live_bytes-append (r ∷ rs) q h = rw (live_bytes-append rs q h) (omega arith)

found_first :
    (path : Text) (r : SelfEditRecord) (rs : List SelfEditRecord)
    → is_artefact path r ≡ true
    → find (is_artefact path) (r ∷ rs) ≡ some r
found_first path r rs here = rw here refl

-- The record that the path has in `rs` is in `qs` one of the new size, and the live bytes are those of
-- `rs` with the size that it had replaced by the new one.
abbrev pub Replaced : Text → ℕ → List SelfEditRecord → List SelfEditRecord → Type 0
Replaced path bytes rs qs =
    (r : SelfEditRecord) × (q : SelfEditRecord) × (find (is_artefact path) rs ≡ some r)
    × (find (is_artefact path) qs ≡ some q)
    × (q.bytes_disk ≡ bytes)
    × (live_bytes qs + r.bytes_disk ≡ live_bytes rs + bytes)

-- The outcome of the search for a record to touch: none where the path has no live record, else the
-- same artefacts within the cap, with the path's size replaced.
abbrev Touch :
    Text → ℕ → List SelfEditRecord → Option (List SelfEditRecord × SelfEditRecord) → Type 0
Touch path bytes rs none = countb (is_artefact path) rs ≡ 0
Touch path bytes rs (some (qs, q)) =
    All (λ r. r.bytes_disk ≤ per_artefact_cap) qs
    × ((other : Text) → countb (is_artefact other) qs ≡ countb (is_artefact other) rs)
    × (countb (is_artefact path) rs ≢ 0)
    × Replaced path bytes rs qs

module _ (path : Text) (now episode bytes : ℕ) (pin : Bool) (small : bytes ≤ per_artefact_cap) where
  refreshed-same :
      (other : Text) (r : SelfEditRecord)
      → is_artefact other (refreshed now episode bytes pin r) ≡ is_artefact other r
  unfolding is_artefact refreshed is_live
  refreshed-same other r = refl

  later :
      (r : SelfEditRecord) (rs : List SelfEditRecord)
      (o : Option (List SelfEditRecord × SelfEditRecord))
      → r.bytes_disk ≤ per_artefact_cap
      → is_artefact path r ≡ false
      → Touch path bytes rs o
      → Touch path bytes (r ∷ rs) (elim o [ none ↦ none | some (qs, q) ↦ some (r ∷ qs, q) ])
  unfolding live_bytes
  later r rs none fits other h = rw other h
  later r rs (some (qs, q)) fits other h = (
    (fits, h.0),
    λ t. rw (h.1 t) refl,
    rw other h.2,
    (h.3.0, h.3.1, rw other h.3.2, rw other h.3.3, h.3.4, omega (arith, h.3.5)),
  )

  swapped :
      (r : SelfEditRecord) (rs : List SelfEditRecord)
      → is_artefact path r ≡ true
      → live_bytes (refreshed now episode bytes pin r ∷ rs) + r.bytes_disk
        ≡ live_bytes (r ∷ rs) + bytes
  unfolding live_bytes refreshed is_artefact is_live
  swapped r rs here =
      let live : (r.pruned_episode == 0) ≡ true = ground arith in rw live (omega arith)

  touch_first-Touch :
      (rs : List SelfEditRecord)
      → All (λ r. r.bytes_disk ≤ per_artefact_cap) rs
      → Touch path bytes rs (touch_first path (refreshed now episode bytes pin) rs)
  unfolding touch_first
  touch_first-Touch [] all = refl
  touch_first-Touch (r ∷ rs) all = elim (Bool-cases (is_artefact path r)) [
    | inl here ↦ rw here (
      (unfold refreshed in small, all.1),
      λ t. rw (refreshed-same t r) refl,
      λ e. ground arith,
      (
        r,
        refreshed now episode bytes pin r,
        found_first path r rs here,
        found_first path (refreshed now episode bytes pin r) rs (refreshed-same path r ∙ here),
        unfold refreshed in refl,
        swapped r rs here,
      ),
    )
    | inr there ↦ rw there (
        later r rs (touch_first path (refreshed now episode bytes pin) rs) all.0 there
          (touch_first-Touch rs all.1))
  ]

apart_artefact :
    (p q : SelfEditRecord) (path : Text)
    → is_artefact q.artefact_path p ≡ false
    → is_artefact path q ≡ true
    → is_artefact path p ≡ false
unfolding is_artefact is_live
apart_artefact p q path away same = elim (Bool-cases (same_text p.artefact_path path)) [
  | inr other ↦ rw other (ground arith)
  | inl here ↦
      let back : same_text path q.artefact_path ≡ true =
        rw (same_text_sym path q.artefact_path) (ground arith) in
      let joined = same_text_trans p.artefact_path path q.artefact_path here back in ground arith
]

unique-append :
    (rs : List SelfEditRecord) (q : SelfEditRecord)
    → countb (is_artefact q.artefact_path) rs ≡ 0
    → ((path : Text) → countb (is_artefact path) rs ≤ 1)
    → (path : Text) → countb (is_artefact path) (rs ++ (q ∷ [])) ≤ 1
unique-append rs q none_there unique path = elim (Bool-cases (is_artefact path q)) [
  | inr other ↦
      rw (countb-append (is_artefact path) rs (q ∷ []), other) (omega (arith, unique path))
  | inl same ↦
      rw (countb-append (is_artefact path) rs (q ∷ []), same)
        (omega (arith, absent rs same none_there))
]
  where
    absent :
        (ps : List SelfEditRecord)
        → is_artefact path q ≡ true
        → countb (is_artefact q.artefact_path) ps ≡ 0
        → countb (is_artefact path) ps ≡ 0
    absent [] held h = refl
    absent (p ∷ ps) held h = elim (Bool-cases (is_artefact q.artefact_path p)) [
      | inl there ↦ let no : ⊥ = ground (arith, there) in elim no [ ]
      | inr away ↦ rw (apart_artefact p q path away held) (absent ps held (ground (arith, away)))
    ]

-- What a call with a path of at most 259 bytes leaves.
abbrev pub Registered : Text → ℕ → List SelfEditRecord → SelfEditRegistry × Bool → Type 0
Registered path bytes rs (s', ok) =
    IsRegistered s'.records
    × (countb (is_artefact path) rs ≡ 0
        → ok ≡ true
        → (live_bytes s'.records ≡ live_bytes rs + bytes) × (live_bytes s'.records ≤ total_cap))
    × (countb (is_artefact path) rs ≢ 0
        → bytes ≤ per_artefact_cap
        → (ok ≡ true) × Replaced path bytes rs s'.records)

take_short : (n : ℕ) (w : Text) → length w ≤ n → take n w ≡ w
take_short zero [] h = refl
take_short (suc n) [] h = refl
take_short zero (c ∷ w) h = let no : ⊥ = omega arith in elim no [ ]
take_short (suc n) (c ∷ w) h = ap (◌∷◌ c) (take_short n w (omega arith))

module _ (now : ℕ) (path kind : Text) (episode bytes : ℕ) (pin : Bool) (s : SelfEditRegistry)
    (short : length path ≤ 259) (few : live_bytes s.records < 2 ^ 63) (h : IsRegistered s.records)
    (small : bytes ≤ per_artefact_cap) where
  capped :
      ltb total_cap ((total_bytes_disk s + bytes) % 2 ^ 64) ≡ false
      → live_bytes s.records + bytes ≤ total_cap
  unfolding total_bytes_disk
  capped fits =
      let whole : (live_bytes s.records % 2 ^ 64 + bytes) % 2 ^ 64 ≡ live_bytes s.records + bytes =
        omega arith in
      ground (arith, whole)

  grown :
      live_bytes (s.records ++ (new_record now path kind episode bytes pin ∷ []))
      ≡ live_bytes s.records + bytes
  unfolding new_record
  grown =
      live_bytes-append s.records (new_record now path kind episode bytes pin)
        (unfold is_live in refl)

  create-Registered :
      countb (is_artefact path) s.records ≡ 0
      → Registered path bytes s.records (
          if ltb total_cap ((total_bytes_disk s + bytes) % 2 ^ 64) then (s, false) else (
            record s {
              records = s.records ++ (new_record now path kind episode bytes pin ∷ []);
              csv_rows = s.csv_rows ++ ((created, new_record now path kind episode bytes pin) ∷ []);
            },
            true,
          ))
  create-Registered absent =
      elim (Bool-cases (ltb total_cap ((total_bytes_disk s + bytes) % 2 ^ 64))) [
        | inl over ↦ rw over (h, λ a ok. cc, λ there fits. let no : ⊥ = there absent in elim no [ ])
        | inr fits ↦ rw fits (
          record {
            small =
                All-append _ s.records (new_record now path kind episode bytes pin ∷ []) h.small
                  (unfold new_record in (small, tt));
            unique =
                unique-append s.records (new_record now path kind episode bytes pin)
                  (unfold new_record in rw (take_short 259 path short) absent) h.unique;
          },
          λ a ok. (unfold new_record in grown, unfold new_record in rw grown (capped fits)),
          λ there fits. let no : ⊥ = there absent in elim no [ ],
        )
      ]

  settle :
      (o : Option (List SelfEditRecord × SelfEditRecord))
      → Touch path bytes s.records o
      → Registered path bytes s.records (elim o [
        | some (rs, r) ↦
            (record s { records = rs; csv_rows = s.csv_rows ++ ((touched, r) ∷ []) }, true)
        | none ↦ if ltb total_cap ((total_bytes_disk s + bytes) % 2 ^ 64) then (s, false) else (
          record s {
            records = s.records ++ (new_record now path kind episode bytes pin ∷ []);
            csv_rows = s.csv_rows ++ ((created, new_record now path kind episode bytes pin) ∷ []);
          },
          true,
        )
      ])
  settle none t = create-Registered t
  settle (some (rs, r)) t = (
    record { small = t.0; unique = λ other. omega (arith, t.1 other, h.unique other) },
    λ absent ok. let no : ⊥ = t.2 absent in elim no [ ],
    λ there fits. (refl, t.3),
  )

-- A path of at most 259 bytes is registered or touched, where the live bytes are below 2^63, no record
-- is above 4 MB and no path has two live records. The last two stay so. A new artefact that is accepted
-- adds its bytes and leaves the total within 50 MB. A touch of a live artefact within 4 MB is always
-- accepted: the record of the path then has the new size, and the live bytes are the old ones less its
-- old size and plus the new one, whatever the total is then.
pub register_or_touch-Registered :
    (now : ℕ) (path kind : Text) (episode bytes : ℕ) (pin : Bool) (s : SelfEditRegistry)
    → length path ≤ 259
    → live_bytes s.records < 2 ^ 63
    → IsRegistered s.records
    → Registered path bytes s.records
        (register_or_touch now (some path) (some kind) episode bytes pin s)
unfolding register_or_touch
register_or_touch-Registered now path kind episode bytes pin s short few h =
    elim (Bool-cases (ltb per_artefact_cap bytes)) [
      | inl big ↦ rw big (h, λ a ok. cc, λ there fits. let no : ⊥ = ground arith in elim no [ ])
      | inr small ↦
          let fits : bytes ≤ per_artefact_cap = ground arith in
          rw small (
            settle now path kind episode bytes pin s short few h fits
              (touch_first path (refreshed now episode bytes pin) s.records)
              (touch_first-Touch path now episode bytes pin fits s.records h.small))
    ]
