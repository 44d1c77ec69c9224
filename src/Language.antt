-- ===== src/Language.antt =====
-- The language layer (src/core/fpsan_language.h): SpikingTokenizer, which turns words into spike grids, and
-- the learning of LanguageCortex. A cluster id of -1 is none, a null word is none.
pub mod Frame
pub mod Choice
use Prim.Native.Nat.{bit_xor}
use engram_core.Prelude.{
  ℕ, zero, suc, ◌+◌, ◌-◌, ◌*◌, ◌/◌, ◌%◌, ◌^◌, List, [], ◌∷◌, ◌++◌, Bool, true, false, not, ◌&&◌,
  ◌||◌, Option, none, some, ltb, leb, ◌==◌, if◌then◌else◌, ℤ, pos, negsuc, minus_one, take, update,
  Text,
}
use engram_core.Prelude.Float.{Float, fmax}
use engram_core.Memory.{Cluster, lang_clusters, lang_word_dim}

-- A `char` in an addition of `uint32_t`: bytes above 127 are negative.
abbrev pub extended : ℕ → ℕ
extended c = if ltb c 128 then c else 2 ^ 32 - 256 + c

-- djb2 and sdbm.
unfoldable pub hash_word : Text → ℕ × ℕ → ℕ × ℕ
hash_word [] hashes = hashes
hash_word (c ∷ word) (hash1, hash2) = hash_word word (
  (hash1 * 32 + hash1 + extended c) % 2 ^ 32,
  (extended c + hash2 * 64 + hash2 * 65536 + (2 ^ 32 - hash2)) % 2 ^ 32,
)

unfoldable pub spike : ℕ → ℕ → ℕ → ℤ
spike hash1 hash2 i =
    let mix = bit_xor (hash1 * (i + 1) % 2 ^ 32) (hash2 / 2 ^ (i % 16)) in
    if ltb (mix % 100) 35 then pos 1 else pos 0

unfoldable pub spikes : ℕ → ℕ → ℕ → ℕ → List ℤ
spikes hash1 hash2 i zero = []
spikes hash1 hash2 i (suc n) = spike hash1 hash2 i ∷ spikes hash1 hash2 (i + 1) n

unfoldable pub encode_word_hash : Text → List ℤ
encode_word_hash word =
    let (hash1, hash2) = hash_word word (5381, 0) in spikes hash1 hash2 0 lang_word_dim

-- A row of the 8 by 8 grid, from the bit of that row.
unfoldable pub char_row : Bool → List ℤ
char_row true = pos 0 ∷ pos 0 ∷ pos 1 ∷ pos 0 ∷ pos 0 ∷ pos 1 ∷ pos 0 ∷ pos 0 ∷ []
char_row false = pos 0 ∷ pos 0 ∷ pos 0 ∷ pos 1 ∷ pos 1 ∷ pos 0 ∷ pos 0 ∷ pos 0 ∷ []

unfoldable pub char_rows : ℕ → ℕ → List ℤ
char_rows val zero = []
char_rows val (suc n) = char_row (val % 2 == 1) ++ char_rows (val / 2) n

unfoldable pub encode_char : ℕ → List ℤ
encode_char c = char_rows c 8

abbrev pub same_spike : ℤ → ℤ → Bool
same_spike (pos a) (pos b) = a == b
same_spike (negsuc a) (negsuc b) = a == b
same_spike _ _ = false

-- How many of the positions where one of both fires agree, and how many do not.
unfoldable pub overlap : List ℤ → List ℤ → ℕ × ℕ
overlap [] ws = (0, 0)
overlap (x ∷ xs) [] = (0, 0)
overlap (x ∷ xs) (w ∷ ws) =
    let (hits, misses) = overlap xs ws in
    if same_spike x (pos 0) && same_spike w (pos 0)
    then (hits, misses)
    else if same_spike w x
    then (suc hits, misses)
    else (hits, suc misses)

abbrev pub freeze_after : ℕ
freeze_after = 5

module _ (F : Float) where
  -- `(float)score / act`.
  abbrev pub similarity : ℕ → ℕ → F.Carrier
  similarity hits misses =
      F.div (if leb misses hits then F.lit (hits - misses) 1 else F.neg (F.lit (misses - hits) 1))
        (F.lit (hits + misses) 1)

  abbrev pub vigilance : F.Carrier
  vigilance = F.lit 85 100

  -- A `float` of a spike.
  abbrev pub float_of : ℤ → F.Carrier
  float_of (pos n) = F.lit n 1
  float_of (negsuc n) = F.neg (F.lit (n + 1) 1)

  -- The accumulators after a sample, at the learning rate `lr`.
  unfoldable pub blend : F.Carrier → List ℤ → List F.Carrier → List F.Carrier
  blend lr [] accum = accum
  blend lr (x ∷ xs) [] = []
  blend lr (x ∷ xs) (a ∷ accum) = F.add a (F.mul lr (F.sub (float_of x) a)) ∷ blend lr xs accum

  abbrev pub weight_of : F.Carrier → ℤ
  weight_of a =
      if F.ltb (F.lit 4 10) a
      then pos 1
      else if F.ltb a (F.neg (F.lit 4 10))
      then minus_one
      else pos 0

  unfoldable pub weights_of : List F.Carrier → List ℤ
  weights_of [] = []
  weights_of (a ∷ accum) = weight_of a ∷ weights_of accum

  pub record Scan : Type 0 where
    pub best : Option ℕ
    pub best_sim : F.Carrier
    pub first_empty : Option ℕ

  abbrev pub scan_start : Scan
  scan_start = record { best = none; best_sim = F.neg (F.lit 9999 1); first_empty = none }

abbrev pub or_first : Option ℕ → ℕ → Option ℕ
or_first none i = some i
or_first (some j) i = some j

abbrev pub is_some : Option ℕ → Bool
is_some none = false
is_some (some i) = true

-- The label is set once, to at most 63 bytes.
abbrev pub label_after : Text → Option Text → Text
label_after [] (some word) = take 63 word
label_after [] none = []
label_after (c ∷ label) word = c ∷ label

module _ {F : Float} where
  -- The loop of `perceive` over the clusters.
  unfoldable pub scan_step : List ℤ → ℕ → Cluster F → Scan F → Scan F
  scan_step input i c s =
      let (hits, misses) = overlap input c.weights in
      let sim = similarity F hits misses in
      if not c.active
      then record s { first_empty = or_first s.first_empty i }
      else if ltb 0 (hits + misses) && F.ltb s.best_sim sim
      then record s { best = some i; best_sim = sim }
      else s

  unfoldable pub scan : List ℤ → (ℕ → Cluster F) → ℕ → ℕ → Scan F → Scan F
  scan input clusters i zero s = s
  scan input clusters i (suc n) s = scan input clusters (i + 1) n (scan_step input i (clusters i) s)

  unfoldable pub train : List ℤ → Option Text → Cluster F → Cluster F
  train input word c =
      let count = c.sample_count + 1 in
      let lr = fmax F (F.lit 1 10) (F.div (F.lit 1 1) (F.lit count 1)) in
      let accum = blend F lr input c.accum in
      record {
        weights = weights_of F accum;
        accum = accum;
        sample_count = count;
        frozen = c.frozen || leb freeze_after count;
        active = true;
        word_label = label_after c.word_label word;
      }

  -- Which cluster the input goes to, once all were compared.
  unfoldable pub winner : Bool → Scan F → Option ℕ
  winner learn s =
      let unsure = F.ltb s.best_sim (vigilance F) in
      if unsure && (is_some s.first_empty && learn)
      then s.first_empty
      else if unsure && not learn
      then none
      else s.best

  -- The learning of the winner, if it is not frozen.
  unfoldable pub settle :
      List ℤ → Bool → Option Text → (ℕ → Cluster F) → Option ℕ → (ℕ → Cluster F) × Option ℕ
  settle input learn word clusters none = (clusters, none)
  settle input learn word clusters (some b) =
      if learn && not (clusters b).frozen
      then (update clusters b (train input word (clusters b)), some b)
      else (clusters, some b)

  unfoldable pub perceive :
      List ℤ → Bool → Option Text → (ℕ → Cluster F) → (ℕ → Cluster F) × Option ℕ
  perceive input learn word clusters =
      settle input learn word clusters
        (winner learn (scan input clusters 0 lang_clusters (scan_start F)))
