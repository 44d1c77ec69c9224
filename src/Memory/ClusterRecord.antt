-- ===== src/Memory/ClusterRecord.antt =====
-- The record of a cluster (src/core/fpsan_memory.h) is read back as it was written.
use engram_core.Prelude.{
  ℕ, zero, suc, ◌-◌, ◌*◌, ◌^◌, ◌≤◌, ◌<◌, ◌≡◌, ◌∙◌, refl, sym, ap, [], ◌∷◌, ◌++◌, Bool, true, false,
  not, ◌==◌, if◌then◌else◌, pos, length, take, map, length-append, length-map, append_assoc, All,
  arith, take_all, length-take, take-append, subst, lt→ltb,
}
use engram_core.Prelude.Float.{Float}
use engram_core.Memory.Wire.{
  Bytes, FloatImage, u32, get_u32-u32, byte_of, IsInt8, map-int8_of-byte_of, until_zero,
  until_zero-append, zeros, NoZero, words, get_words, length-words, get_words-words, take_exact,
  drop_exact,
}
use engram_core.Memory.{Cluster, cortex_record_size, lang_word_dim, encode_cluster, decode_cluster}
use engram_core.Memory.Records.{after_one, length-u32, count_lem}

frozen_lem : (b : Bool) → not ((if b then 1 else 0) == 0) ≡ b
frozen_lem true = refl
frozen_lem false = refl

take_of_take :
    (m n : ℕ) (xs ys : Bytes) → m ≤ n → n ≤ length xs → take m (take n xs ++ ys) ≡ take m xs
take_of_take zero n xs ys h k = refl
take_of_take (suc m) zero xs ys h k = absurd (omega arith)
take_of_take (suc m) (suc n) [] ys h k = absurd (omega arith)
take_of_take (suc m) (suc n) (x ∷ xs) ys h k =
    ap (◌∷◌ x) (take_of_take m n xs ys (omega arith) (omega arith))

padding : (k : ℕ) → (rest : Bytes) × (take k (zeros 64) ++ (0 ∷ []) ≡ 0 ∷ rest)
padding zero = ([], refl)
padding (suc k) = (take k (zeros 63) ++ (0 ∷ []), refl)

module _ {F : Float} (img : FloatImage F) where
  -- What the file keeps of a cluster is all of it, if its arrays have their sizes and its label is a
  -- C string of at most 63 bytes.
  pub record FitsCluster (c : Cluster F) : Type 0 where
    pub weights_size : length c.weights ≡ lang_word_dim
    pub weights_range : All IsInt8 c.weights
    pub accum_range : All img.Single c.accum
    pub accum_size : length c.accum ≡ lang_word_dim
    pub sample_count : c.sample_count < 2 ^ 31
    pub label_size : length c.word_label ≤ 63
    pub label_bytes : NoZero c.word_label

  -- The parts of the record of a cluster, each with what follows it.
  abbrev label_part : Cluster F → Bytes
  label_part c = take 64 (take 63 c.word_label ++ zeros 64) ++ (0 ∷ 0 ∷ 0 ∷ [])

  abbrev frozen_part : Cluster F → Bytes
  frozen_part c = (if c.frozen then 1 else 0) ∷ label_part c

  abbrev sample_part : Cluster F → Bytes
  sample_part c = u32 c.sample_count ++ frozen_part c

  abbrev accum_part : Cluster F → Bytes
  accum_part c = words img c.accum ++ sample_part c

  abbrev weights_part : Cluster F → Bytes
  weights_part c = map byte_of c.weights ++ accum_part c

  length-label_part : (c : Cluster F) → length (label_part c) ≡ 67
  length-label_part c =
      let padded = take 63 c.word_label ++ zeros 64 in
      omega (
        arith,
        length-append (take 64 padded) (0 ∷ 0 ∷ 0 ∷ []),
        length-take 64 padded,
        length-append (take 63 c.word_label) (zeros 64),
      )

  pub length-encode_cluster :
      (id : ℕ) (c : Cluster F)
      → FitsCluster c
      → length (encode_cluster img id c) ≡ cortex_record_size
  unfolding encode_cluster
  length-encode_cluster id c v = omega (
    arith,
    length-append (u32 id) (weights_part c),
    length-append (map byte_of c.weights) (accum_part c),
    length-map byte_of c.weights,
    length-append (words img c.accum) (sample_part c),
    length-words img c.accum,
    length-append (u32 c.sample_count) (frozen_part c),
    length-u32 id,
    length-u32 c.sample_count,
    length-label_part c,
  )

  label_lem :
      (c : Cluster F)
      → FitsCluster c
      → until_zero (take 63 (label_part c) ++ (0 ∷ [])) ≡ c.word_label
  label_lem c v =
      let lab = c.word_label in
      let short = take_all 63 lab v.label_size in
      let pad = padding (63 - length lab) in
      rw
        (
          short,
          take_of_take 63 64 (lab ++ zeros 64) (0 ∷ 0 ∷ 0 ∷ []) (omega arith)
              (omega (arith, length-append lab (zeros 64))),
          take-append 63 lab (zeros 64),
          short,
          append_assoc lab (take (63 - length lab) (zeros 64)) (0 ∷ []),
          pad.1,
        )
        (until_zero-append lab pad.0 v.label_bytes)

  pub decode-encode_cluster :
      (id : ℕ) (c : Cluster F)
      → id < 2 ^ 31
      → c.active ≡ true
      → FitsCluster c
      → decode_cluster img (encode_cluster img id c) ≡ (pos id, c)
  unfolding decode_cluster encode_cluster
  decode-encode_cluster id c small on v =
      let weights_bytes : length (map byte_of c.weights) ≡ lang_word_dim =
        length-map byte_of c.weights ∙ v.weights_size in
      let accum_bytes : length (words img c.accum) ≡ 4 * lang_word_dim =
        omega (arith, length-words img c.accum, v.accum_size) in
      rw
        (
          get_u32-u32 id (weights_part c) (omega arith),
          after_one id (weights_part c),
          take_exact lang_word_dim (map byte_of c.weights) (accum_part c) weights_bytes,
          drop_exact lang_word_dim (map byte_of c.weights) (accum_part c) weights_bytes,
          drop_exact (4 * lang_word_dim) (words img c.accum) (sample_part c) accum_bytes,
          after_one c.sample_count (frozen_part c),
          map-int8_of-byte_of c.weights v.weights_range,
          subst (λ n. get_words img n (accum_part c) ≡ c.accum) v.accum_size
              (get_words-words img c.accum (sample_part c) v.accum_range),
          count_lem c.sample_count (frozen_part c) v.sample_count,
          frozen_lem c.frozen,
          label_lem c v,
          lt→ltb id (2 ^ 31) small,
        )
        (λ i. (pos id, record c { active = sym on i }))
