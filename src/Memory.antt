-- ===== src/Memory.antt =====
-- SynapticMemory (src/core/fpsan_memory.h) and the clusters of LanguageCortex (src/core/fpsan_language.h) that
-- it saves. A file is the list of its bytes; the padding of the records, which nothing reads, is zeros.
pub mod Wire
pub mod Records
pub mod ClusterRecord
pub mod ClusterBlock
pub mod NodeBlock
pub mod RoundTrip
use engram_core.Prelude.{
  ℕ, zero, suc, ◌+◌, ◌*◌, ◌%◌, ◌^◌, List, [], ◌∷◌, ◌++◌, Bool, true, false, not, Option, none, some,
  ltb, ◌==◌, if◌then◌else◌, ℤ, pos, negsuc, in_range, length, take, drop, update, map, Text,
}
use engram_core.Prelude.Float.{Float}
use engram_core.Graph.Node.{Node, Edge, prov_unknown}
use engram_core.Graph.Arena.{Graph, init}
use engram_core.Memory.Wire.{
  Bytes, FloatImage, u32, get_u32, word_of, int_of, count_of, byte_of, int8_of, head_byte,
  until_zero, zeros, fread, words, get_words,
}

abbrev pub fpsan_magic : ℕ
fpsan_magic = 0x46505341

abbrev pub fpsan_version : ℕ
fpsan_version = 2

abbrev pub lang_word_dim : ℕ
lang_word_dim = 256

abbrev pub lang_clusters : ℕ
lang_clusters = 6500

pub record Header : Type 0 where
  pub magic : ℕ
  pub version : ℕ
  pub node_count : ℕ
  pub cortex_active_count : ℕ
  pub alive_node_count : ℕ

unfoldable pub encode_header : Header → Bytes
encode_header h =
    u32 h.magic
    ++ (u32 h.version
        ++ (u32 h.node_count ++ (u32 h.cortex_active_count ++ u32 h.alive_node_count)))

unfoldable pub decode_header : Bytes → Header
decode_header bytes = record {
  magic = get_u32 bytes;
  version = get_u32 (drop 4 bytes);
  node_count = get_u32 (drop 8 bytes);
  cortex_active_count = get_u32 (drop 12 bytes);
  alive_node_count = get_u32 (drop 16 bytes);
}

abbrev pub header_size : ℕ
header_size = 20

-- NodeRecord: the id and the two counts.
unfoldable pub encode_node : ℕ → ℕ → ℕ → Bytes
encode_node node_id edge_count inverse_edge_count =
    u32 node_id ++ (u32 edge_count ++ u32 inverse_edge_count)

abbrev pub node_record_size : ℕ
node_record_size = 12

abbrev pub edge_record_size : ℕ
edge_record_size = 16

-- A cluster of the language cortex.
pub record Cluster (F : Float) : Type 0 where
  pub weights : List ℤ
  pub accum : List F.Carrier
  pub sample_count : ℕ
  pub frozen : Bool
  pub active : Bool
  pub word_label : Text

abbrev pub cortex_record_size : ℕ
cortex_record_size = 1356

-- How many of the `n` clusters, or nodes, from `i` on pass.
unfoldable pub count_from : (ℕ → Bool) → ℕ → ℕ → ℕ
count_from p i zero = 0
count_from p i (suc n) = if p i then suc (count_from p (i + 1) n) else count_from p (i + 1) n

module _ {F : Float} where
  unfoldable pub empty_cluster : Cluster F
  empty_cluster = record {
    weights = map (λ b. pos b) (zeros lang_word_dim);
    accum = map (λ b. F.lit 0 1) (zeros lang_word_dim);
    sample_count = 0;
    frozen = false;
    active = false;
    word_label = [];
  }

  unfoldable pub store_cluster : ℤ × Cluster F → (ℕ → Cluster F) → ℕ → Cluster F
  store_cluster (id, c) clusters = elim (in_range lang_clusters id) [
    | none ↦ clusters
    | some i ↦ update clusters i c
  ]

  unfoldable pub restore_node : List (Edge F) → List (Edge F) → Node F → Node F
  restore_node es ies n = record n {
    alive = true;
    activation = F.lit 0 1;
    clamped = false;
    edges = es;
    inverse_edges = ies;
  }

  module _ (img : FloatImage F) where
    unfoldable pub encode_edge : Edge F → Bytes
    encode_edge e =
        u32 (word_of e.target)
        ++ (u32 (img.bits e.weight) ++ (u32 e.co_occur_count ++ (e.kind % 256 ∷ 0 ∷ 0 ∷ 0 ∷ [])))

    -- The provenance is not in the file; a fresh node has none.
    unfoldable pub decode_edge : Bytes → Edge F
    decode_edge bytes = record {
      target = int_of (get_u32 bytes);
      weight = img.from_bits (get_u32 (drop 4 bytes));
      co_occur_count = count_of (int_of (get_u32 (drop 8 bytes)));
      kind = head_byte (drop 12 bytes);
      provenance = prov_unknown;
    }

    unfoldable pub encode_edges : List (Edge F) → Bytes
    encode_edges [] = []
    encode_edges (e ∷ es) = encode_edge e ++ encode_edges es

    unfoldable pub encode_cluster : ℕ → Cluster F → Bytes
    encode_cluster id c =
        u32 id
        ++ (map byte_of c.weights
            ++ (words img c.accum
                ++ (u32 c.sample_count
                    ++ ((if c.frozen then 1 else 0)
                        ∷ (take 64 (take 63 c.word_label ++ zeros 64) ++ (0 ∷ 0 ∷ 0 ∷ []))))))

    unfoldable pub decode_cluster : Bytes → ℤ × Cluster F
    decode_cluster bytes =
        let after_id = drop 4 bytes in
        let after_weights = drop lang_word_dim after_id in
        let after_accum = drop (4 * lang_word_dim) after_weights in
        let after_samples = drop 4 after_accum in
        (
          int_of (get_u32 bytes),
          record {
            weights = map int8_of (take lang_word_dim after_id);
            accum = get_words img lang_word_dim after_weights;
            sample_count = count_of (int_of (get_u32 after_accum));
            frozen = not (head_byte after_samples == 0);
            active = true;
            word_label = until_zero (take 63 (drop 1 after_samples) ++ (0 ∷ []));
          },
        )

    -- Block 2: the active clusters among the `n` from `i` on.
    unfoldable pub cortex_block : (ℕ → Cluster F) → ℕ → ℕ → Bytes
    cortex_block clusters i zero = []
    cortex_block clusters i (suc n) =
        let rest = cortex_block clusters (i + 1) n in
        if (clusters i).active then encode_cluster i (clusters i) ++ rest else rest

    -- Block 3: the live nodes among the `n` from `i` on.
    unfoldable pub node_block : (ℕ → Node F) → ℕ → ℕ → Bytes
    node_block nodes i zero = []
    node_block nodes i (suc n) =
        let rest = node_block nodes (i + 1) n in
        let es = (nodes i).edges in
        let ies = (nodes i).inverse_edges in
        if (nodes i).alive
        then encode_node i (length es) (length ies)
          ++ (encode_edges es ++ (encode_edges ies ++ rest))
        else rest

    -- What `sleep` writes.
    unfoldable pub sleep : Graph F → (ℕ → Cluster F) → Bytes
    sleep g clusters =
        encode_header (record {
          magic = fpsan_magic;
          version = fpsan_version;
          node_count = g.node_count;
          cortex_active_count = count_from (λ i. (clusters i).active) 0 lang_clusters;
          alive_node_count = count_from (λ i. (g.cortex_memory i).alive) 0 g.node_count;
        })
        ++ (cortex_block clusters 0 lang_clusters ++ node_block g.cortex_memory 0 g.node_count)

    -- The loops of `wake`: none where the source returns false, with the brain half restored.
    unfoldable pub read_edges : ℕ → Bytes → Option (List (Edge F) × Bytes)
    read_edges zero file = some ([], file)
    read_edges (suc n) file = elim (fread edge_record_size file) [
      | none ↦ none
      | some (chunk, rest) ↦ elim (read_edges n rest) [
        | none ↦ none
        | some (es, left) ↦ some (decode_edge chunk ∷ es, left)
      ]
    ]

    unfoldable pub read_clusters : ℕ → Bytes → (ℕ → Cluster F) → Option ((ℕ → Cluster F) × Bytes)
    read_clusters zero file clusters = some (clusters, file)
    read_clusters (suc n) file clusters = elim (fread cortex_record_size file) [
      | none ↦ none
      | some (chunk, rest) ↦ read_clusters n rest (store_cluster (decode_cluster chunk) clusters)
    ]

    unfoldable pub read_nodes : ℕ → ℕ → Bytes → (ℕ → Node F) → Option (ℕ → Node F)
    read_nodes zero node_count file nodes = some nodes
    read_nodes (suc n) node_count file nodes = elim (fread node_record_size file) [
      | none ↦ none
      | some (chunk, rest) ↦ elim (in_range node_count (int_of (get_u32 chunk))) [
        | none ↦ none
        | some i ↦ elim (read_edges (count_of (int_of (get_u32 (drop 4 chunk)))) rest) [
          | none ↦ none
          | some (es, rest') ↦
              elim (read_edges (count_of (int_of (get_u32 (drop 8 chunk)))) rest') [
                | none ↦ none
                | some (ies, left) ↦
                    read_nodes n node_count left (update nodes i (restore_node es ies (nodes i)))
              ]
        ]
      ]
    ]

    -- `wake`, over the memory that the allocator returns to `init`.
    unfoldable pub wake :
        (ℕ → Node F) → (ℕ → ℤ) → Bytes → Graph F → Option (Graph F × (ℕ → Cluster F))
    wake raw raw_next file g = elim (fread header_size file) [
      | none ↦ none
      | some (chunk, rest) ↦
          let header = decode_header chunk in
          let count = count_of (int_of header.node_count) in
          let fresh = init raw raw_next count g in
          if header.magic == fpsan_magic
          then (elim (read_clusters header.cortex_active_count rest (λ i. empty_cluster)) [
            | none ↦ none
            | some (clusters, left) ↦
                elim (read_nodes header.alive_node_count count left fresh.cortex_memory) [
                  | none ↦ none
                  | some nodes ↦ some (record fresh { cortex_memory = nodes }, clusters)
                ]
          ])
          else none
    ]
