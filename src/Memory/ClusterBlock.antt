-- ===== src/Memory/ClusterBlock.antt =====
-- The block of clusters in the file (src/core/fpsan_memory.h) is read back as it was written.
use engram_core.Prelude.{
  ℕ, zero, suc, ◌+◌, ◌≤◌, ◌<◌, ◌≡◌, ◌∙◌, refl, ap, inl, inr, ◌++◌, Bool, true, false, ◌&&◌, some,
  ltb, leb, ◌==◌, if◌then◌else◌, pos, update, update_if, append_assoc, arith, Bool-cases, lt→ltb,
  ==_iff,
}
use engram_core.Prelude.Float.{Float}
use engram_core.Memory.Wire.{Bytes, FloatImage, fread-append}
use engram_core.Memory.{
  Cluster, cortex_record_size, lang_clusters, count_from, encode_cluster, cortex_block,
  store_cluster, read_clusters,
}
use engram_core.Memory.ClusterRecord.{FitsCluster, length-encode_cluster, decode-encode_cluster}

module _ {F : Float} (img : FloatImage F) where
  -- The clusters that are stored, in the order of their records.
  unfoldable pub stored_clusters : (ℕ → Cluster F) → ℕ → ℕ → (ℕ → Cluster F) → ℕ → Cluster F
  stored_clusters cs i zero out = out
  stored_clusters cs i (suc n) out =
      stored_clusters cs (i + 1) n (if (cs i).active then update out i (cs i) else out)

  abbrev pub AllClusters : (ℕ → Cluster F) → Type 0
  AllClusters cs = (i : ℕ) → (cs i).active ≡ true → FitsCluster img (cs i)

  stored :
      (i : ℕ) (c : Cluster F) (out : ℕ → Cluster F)
      → i < lang_clusters
      → store_cluster (pos i, c) out ≡ update out i c
  unfolding store_cluster
  stored i c out h =
      let inside : ltb i lang_clusters ≡ true = lt→ltb i lang_clusters h in
      rw (inside, store_cluster)

  read_one_cluster :
      (cs : ℕ → Cluster F) (n i : ℕ) (file : Bytes) (out : ℕ → Cluster F)
      → FitsCluster img (cs i)
      → (cs i).active ≡ true
      → i < lang_clusters
      → read_clusters img (suc n) (encode_cluster img i (cs i) ++ file) out
        ≡ read_clusters img n file (update out i (cs i))
  unfolding read_clusters
  read_one_cluster cs n i file out v on h = rw (
    fread-append cortex_record_size (encode_cluster img i (cs i)) file
        (length-encode_cluster img i (cs i) v),
    decode-encode_cluster img i (cs i) (omega arith) on v,
    stored i (cs i) out h,
    read_clusters,
  )

  pub read_clusters-cortex_block :
      (cs : ℕ → Cluster F) (n i : ℕ) (file : Bytes) (out : ℕ → Cluster F)
      → AllClusters cs
      → i + n ≤ lang_clusters
      → read_clusters img
          (count_from (λ k. (cs k).active) i n)
          (cortex_block img cs i n ++ file)
          out
        ≡ some (stored_clusters cs i n out, file)
  unfolding cortex_block count_from stored_clusters
  read_clusters-cortex_block cs zero i file out v h = unfold read_clusters in refl
  read_clusters-cortex_block cs (suc n) i file out v h =
      go (cs i).active refl (λ o. read_clusters-cortex_block cs n (i + 1) file o v (omega arith))
    where
      rest : Bytes
      rest = cortex_block img cs (i + 1) n

      more : ℕ
      more = count_from (λ k. (cs k).active) (i + 1) n

      go :
          (b : Bool)
          → (cs i).active ≡ b
          → ((o : ℕ → Cluster F)
              → read_clusters img more (rest ++ file) o
                ≡ some (stored_clusters cs (i + 1) n o, file))
          → read_clusters img
              (if b then suc more else more)
              ((if b then encode_cluster img i (cs i) ++ rest else rest) ++ file)
              out
            ≡ some (stored_clusters cs (i + 1) n (if b then update out i (cs i) else out), file)
      go false off ih = ih out
      go true on ih =
          ap (λ bytes. read_clusters img (suc more) bytes out)
            (append_assoc (encode_cluster img i (cs i)) rest file)
          ∙ read_one_cluster cs more i (rest ++ file) out (v i on) on (omega arith)
          ∙ ih (update out i (cs i))

  step_cluster :
      (cs : ℕ → Cluster F) (n i j : ℕ) (out : ℕ → Cluster F)
      → (let x = if (cs i).active && (j == i) then cs i else out j in
          if leb (i + 1) j && (ltb j (i + 1 + n) && (cs j).active) then cs j else x)
        ≡ (if leb i j && (ltb j (i + suc n) && (cs j).active) then cs j else out j)
  step_cluster cs n i j out = elim (Bool-cases (j == i)) [
    | inl same ↦ let e = (==_iff j i).0 same in rw e (ground arith)
    | inr other ↦ ground arith
  ]

  pub stored_clusters_lem :
      (cs : ℕ → Cluster F) (n i j : ℕ) (out : ℕ → Cluster F)
      → stored_clusters cs i n out j
        ≡ (if leb i j && (ltb j (i + n) && (cs j).active) then cs j else out j)
  unfolding stored_clusters
  stored_clusters_lem cs zero i j out =
      let e : (leb i j && (ltb j (i + 0) && (cs j).active)) ≡ false = ground arith in rw e
  stored_clusters_lem cs (suc n) i j out =
      rw
        (
          stored_clusters_lem cs n (i + 1) j (if (cs i).active then update out i (cs i) else out),
          update_if (cs i).active out i j (cs i),
        )
        (step_cluster cs n i j out)
