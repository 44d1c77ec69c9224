-- ===== src/Lexer/Spelling.antt =====
-- The resonance of misspelt words (src/core/fpsan_lexer.h): `levenshtein_dist`, without the table of 65
-- by 65 whose bound its callers keep with words of at most 63 bytes, and `spike_levenshtein_neighbors`.
use engram_core.Prelude.{
  ℕ, zero, suc, ◌+◌, List, [], ◌∷◌, Bool, ◌&&◌, ◌||◌, not, min, ltb, ◌==◌, if◌then◌else◌, length,
  Text,
}
use engram_core.Prelude.Float.{Float}
use engram_core.Graph.Node.{add_voltage}
use engram_core.Graph.Arena.{Graph}
use engram_core.Graph.Chain.{modify}
use engram_core.Memory.{Cluster, lang_clusters}

-- The row `dp[i]` from `dp[i][j]` on, which is `left`, for the letters of `b` from there; `above` is
-- the row before it from the same place on.
unfoldable pub fill : ℕ → Text → ℕ → List ℕ → List ℕ
fill x [] left above = left ∷ []
fill x (y ∷ b) left [] = left ∷ []
fill x (y ∷ b) left (diagonal ∷ []) = left ∷ []
fill x (y ∷ b) left (diagonal ∷ up ∷ above) =
    let cost = if x == y then 0 else 1 in
    left ∷ fill x b (min (min (up + 1) (left + 1)) (diagonal + cost)) (up ∷ above)

-- The rows from `i` on; the last one is left.
unfoldable pub fill_rows : ℕ → Text → Text → List ℕ → List ℕ
fill_rows i [] b row = row
fill_rows i (x ∷ a) b row = fill_rows (i + 1) a b (fill x b (i + 1) row)

-- `dp[0]` from `j` on.
unfoldable pub first_row : ℕ → Text → List ℕ
first_row j [] = j ∷ []
first_row j (y ∷ b) = j ∷ first_row (j + 1) b

abbrev pub last_of : List ℕ → ℕ
last_of [] = 0
last_of (n ∷ []) = n
last_of (n ∷ m ∷ ns) = last_of (m ∷ ns)

-- `abs(la - lb) > 2`.
abbrev pub far_apart : Text → Text → Bool
far_apart a b = ltb (length a + 2) (length b) || ltb (length b + 2) (length a)

unfoldable pub levenshtein_dist : Text → Text → ℕ
levenshtein_dist a b = if far_apart a b then 99 else last_of (fill_rows 0 a b (first_row 0 b))

module _ {F : Float} where
  abbrev pub is_neighbor : Text → Cluster F → Bool
  is_neighbor word c =
      c.active && (not (length c.word_label == 0) && levenshtein_dist word c.word_label == 1)

  -- The candidates among the `n` clusters from `i` on, while there is room.
  unfoldable pub neighbors : Text → (ℕ → Cluster F) → ℕ → ℕ → ℕ → List ℕ
  neighbors word clusters zero i n = []
  neighbors word clusters (suc room) i zero = []
  neighbors word clusters (suc room) i (suc n) =
      let found = neighbors word clusters room (i + 1) n in
      let skip = neighbors word clusters (suc room) (i + 1) n in
      if is_neighbor word (clusters i) then i ∷ found else skip

  unfoldable pub spike_all : F.Carrier → ℕ → List ℕ → Graph F → Graph F × ℕ
  spike_all voltage zero ids g = (g, 0)
  spike_all voltage (suc left) [] g = (g, 0)
  spike_all voltage (suc left) (id ∷ ids) g =
      let raised = modify id (add_voltage voltage) g in
      let (h, n) = spike_all voltage left ids raised in
      let skip = spike_all voltage (suc left) ids g in
      if ltb id g.node_count then (h, suc n) else skip

  unfoldable pub spike_levenshtein_neighbors :
      Text → (ℕ → Cluster F) → F.Carrier → ℕ → Graph F → Graph F × ℕ
  spike_levenshtein_neighbors word clusters voltage max_neighbors g =
      spike_all voltage max_neighbors (neighbors word clusters 32 0 lang_clusters) g
