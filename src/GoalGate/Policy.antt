-- ===== src/GoalGate/Policy.antt =====
-- What the disk policy (src/fpsan_live_core.cpp) sees of a motor chain: the first 2047 bytes of its texts.
use engram_core.Prelude.{
  take, take-append, take_all, length-map, ℕ, zero, suc, ◌+◌, ◌-◌, ◌≤◌, ◌≡◌, ◌∙◌, refl, sym, inl,
  inr, List, [], ◌∷◌, ◌++◌, map, Bool, true, ◌&&◌, ◌||◌, ltb, ◌==◌, if◌then◌else◌, length,
  Bool-cases, append_assoc, arith, Text, codes,
}
use engram_core.Prelude.Float.{Float}
use engram_core.Graph.Node.{MotorAction}
use engram_core.Graph.Arena.{Graph}
use engram_core.GoalGate.{
  to_lower, has_text, copy_lower, blob_loop, motor_chain_text_blob_lower, starts_with, contains,
  disk_ops_policy_blocks_lower, motor_chain_policy_blocks_disk_ops, blob_capacity, action_of,
}

abbrev pub lowered : Text → Text
lowered = map to_lower

-- The texts of the actions that have one, in lower case, each with a space behind it.
abbrev pub all_texts : List MotorAction → Text
all_texts [] = []
all_texts (a ∷ actions) =
    if has_text a then lowered a.text ++ (b' ' ∷ all_texts actions) else all_texts actions

copy_lower_lem :
    (room : ℕ) (t : Text) → copy_lower room t ≡ (take room (lowered t), room - length t)
unfolding copy_lower
copy_lower_lem room [] =
    let e : room - 0 ≡ room = omega arith in rw (take_all {A = ℕ} room [] (omega arith), e)
copy_lower_lem zero (c ∷ t) = let e : 0 - suc (length t) ≡ 0 = omega arith in rw e
copy_lower_lem (suc room) (c ∷ t) =
    let e : suc room - suc (length t) ≡ room - length t = omega arith in
    rw (copy_lower_lem room t, e)

-- A write loop with room for `room` bytes writes a prefix of the whole text.
blob_loop_lem :
    (actions : List MotorAction) (room : ℕ) → blob_loop room actions ≡ take room (all_texts actions)
unfolding blob_loop
blob_loop_lem [] room = rw (take_all {A = ℕ} room [] (omega arith))
blob_loop_lem (a ∷ actions) room = elim (Bool-cases (has_text a)) [
  | inr silent ↦ rw silent (blob_loop_lem actions room)
  | inl text ↦
      rw
        (
          text,
          copy_lower_lem room a.text,
          take-append room (lowered a.text) (b' ' ∷ all_texts actions),
          length-map to_lower a.text,
        )
        (tail (blob_loop_lem actions) (room - length a.text))
]
  where
    tail :
        ((k : ℕ) → blob_loop k actions ≡ take k (all_texts actions))
        → (left : ℕ)
        → (if ltb 0 left
            then take room (lowered a.text) ++ (b' ' ∷ blob_loop (left - 1) actions)
            else take room (lowered a.text) ++ blob_loop left actions)
          ≡ take room (lowered a.text) ++ take left (b' ' ∷ all_texts actions)
    tail copied zero = rw (copied 0)
    tail copied (suc left) =
        let e : suc left - 1 ≡ left = omega arith in rw (e, copied left) (ground arith)

-- The blob is the beginning of the chain's texts, in a buffer of any size.
pub blob_lem :
    (actions : List MotorAction) (cap : ℕ)
    → motor_chain_text_blob_lower actions cap ≡ take (cap - 1) (all_texts actions)
unfolding motor_chain_text_blob_lower
blob_lem actions cap = elim (Bool-cases (cap == 0)) [
  | inl none_left ↦ let e : cap - 1 ≡ 0 = ground arith in rw (none_left, e)
  | inr some_left ↦ rw some_left (blob_loop_lem actions (cap - 1))
]

all_texts-append :
    (front back : List MotorAction) → all_texts (front ++ back) ≡ all_texts front ++ all_texts back
all_texts-append [] back = refl
all_texts-append (a ∷ front) back = elim (Bool-cases (has_text a)) [
  | inr silent ↦ rw silent (all_texts-append front back)
  | inl text ↦
      rw (text, all_texts-append front back)
        (sym (append_assoc (lowered a.text) (b' ' ∷ all_texts front) (all_texts back)))
]

-- A longer text holds what a part of it holds.
starts_with-append : (n b v : Text) → starts_with n b ≡ true → starts_with n (b ++ v) ≡ true
unfolding starts_with
starts_with-append [] b v h = refl
starts_with-append (c ∷ n) [] v h = cc
starts_with-append (c ∷ n) (d ∷ b) v h = ground (arith, starts_with-append n b v)

contains_at : (n b : Text) → starts_with n b ≡ true → contains n b ≡ true
unfolding contains
contains_at n [] h = h
contains_at n (c ∷ b) h = rw h

contains_before : (n b v : Text) → contains n b ≡ true → contains n (b ++ v) ≡ true
unfolding contains
contains_before n [] v h = contains_at n v (starts_with-append n [] v h)
contains_before n (c ∷ b) v h =
    ground (arith, starts_with-append n (c ∷ b) v, contains_before n b v)

contains_after : (n u b : Text) → contains n b ≡ true → contains n (u ++ b) ≡ true
unfolding contains
contains_after n [] b h = h
contains_after n (c ∷ u) b h = ground (arith, contains_after n u b h)

contains_around : (n u b v : Text) → contains n b ≡ true → contains n (u ++ (b ++ v)) ≡ true
contains_around n u b v h = contains_after n u (b ++ v) (contains_before n b v h)

-- The test of the policy in one expression.
abbrev forbidden : Text → Bool
forbidden blob =
    contains (codes "diskpart") blob
    || (contains (codes "cipher") blob && contains (codes "/w") blob
        || (contains (codes "format") blob
              && (contains (codes "c:") blob || contains (codes "c :") blob)
            || (contains (codes "del ") blob
                && (contains (codes "\\\\") blob
                    || (contains (codes "c:\\") blob || contains (codes "c:/") blob)))))

disk_ops_lem : (blob : Text) → disk_ops_policy_blocks_lower blob ≡ forbidden blob
unfolding disk_ops_policy_blocks_lower contains
disk_ops_lem [] = refl
disk_ops_lem (c ∷ blob) = refl

-- What the policy blocks it blocks within any longer text.
pub disk_ops_mono :
    (u b v : Text)
    → disk_ops_policy_blocks_lower b ≡ true
    → disk_ops_policy_blocks_lower (u ++ (b ++ v)) ≡ true
disk_ops_mono u b v h =
    let h' = rw disk_ops_lem at h in
    rw disk_ops_lem (
      ground (
        arith,
        h',
        contains_around (codes "diskpart") u b v,
        contains_around (codes "cipher") u b v,
        contains_around (codes "/w") u b v,
        contains_around (codes "format") u b v,
        contains_around (codes "c:") u b v,
        contains_around (codes "c :") u b v,
        contains_around (codes "del ") u b v,
        contains_around (codes "\\\\") u b v,
        contains_around (codes "c:\\") u b v,
        contains_around (codes "c:/") u b v,
      ))

take_past {ℓ} :
    {A : Type ℓ} (n : ℕ) (xs ys : List A)
    → length xs ≤ n
    → take n (xs ++ ys) ≡ xs ++ take (n - length xs) ys
take_past n xs ys h = take-append n xs ys ∙ rw (take_all n xs h)

module _ {F : Float} (g : Graph F) where
  -- A chain that posts, launches or fetches a text that is forbidden in lower case is blocked, in
  -- whatever case it is written and whatever stands around it, if the texts up to its end have at
  -- most 2047 bytes.
  pub policy_catches :
      (chain : List ℕ) (front back : List MotorAction) (a : MotorAction)
      → map (action_of g) chain ≡ front ++ (a ∷ back)
      → has_text a ≡ true
      → disk_ops_policy_blocks_lower (lowered a.text) ≡ true
      → length (all_texts front) + length a.text ≤ 2047
      → motor_chain_policy_blocks_disk_ops g chain ≡ true
  unfolding motor_chain_policy_blocks_disk_ops
  policy_catches chain front back a split text bad fits =
      let behind = b' ' ∷ all_texts back in
      rw
        (
          split,
          blob_lem (front ++ (a ∷ back)) blob_capacity,
          all_texts-append front (a ∷ back),
          text,
          take_past 2047 (all_texts front) (lowered a.text ++ behind) (omega arith),
          take_past (2047 - length (all_texts front)) (lowered a.text) behind
              (omega (arith, length-map to_lower a.text)),
        )
        (disk_ops_mono (all_texts front) (lowered a.text) _ bad)

  -- Beyond 2047 bytes the policy is blind: two chains with the same actions up to there are both
  -- blocked or both not, whatever follows.
  pub policy_blind :
      (chain other : List ℕ) (front back back' : List MotorAction)
      → map (action_of g) chain ≡ front ++ back
      → map (action_of g) other ≡ front ++ back'
      → 2047 ≤ length (all_texts front)
      → motor_chain_policy_blocks_disk_ops g chain ≡ motor_chain_policy_blocks_disk_ops g other
  unfolding motor_chain_policy_blocks_disk_ops
  policy_blind chain other front back back' split split' long =
      let e : 2047 - length (all_texts front) ≡ 0 = omega arith in
      rw (
        split,
        split',
        blob_lem (front ++ back) blob_capacity,
        blob_lem (front ++ back') blob_capacity,
        all_texts-append front back,
        all_texts-append front back',
        take-append 2047 (all_texts front) (all_texts back),
        take-append 2047 (all_texts front) (all_texts back'),
        e,
      )
