-- ===== src/Memory/RoundTrip.antt =====
-- `wake` restores what `sleep` wrote (src/core/fpsan_memory.h), except what the file does not hold.
use engram_core.Prelude.{
  ℕ, zero, suc, ◌+◌, ◌^◌, ◌≤◌, ◌<◌, ◌≡◌, ◌∙◌, refl, ◌++◌, Bool, true, false, ◌&&◌, some, ltb, leb,
  ◌==◌, if◌then◌else◌, ℤ, arith, lt→ltb,
}
use engram_core.Prelude.Float.{Float}
use engram_core.Graph.Node.{Node, init_node}
use engram_core.Graph.Arena.{Graph, init, cortex_capacity}
use engram_core.Memory.Wire.{Bytes, FloatImage, fread-append}
use engram_core.Memory.{
  Header, encode_header, header_size, Cluster, empty_cluster, lang_clusters, fpsan_magic,
  fpsan_version, count_from, cortex_block, node_block, sleep, wake, read_clusters, read_nodes,
}
use engram_core.Memory.Records.{IsHeader, decode-encode_header, length-encode_header}
use engram_core.Memory.ClusterBlock.{
  AllClusters, stored_clusters, read_clusters-cortex_block, stored_clusters_lem,
}
use engram_core.Memory.NodeBlock.{
  AllNodes, kept, restored_nodes, read_nodes-node_block, restored_nodes_lem, count_small,
}

count_from-le : (p : ℕ → Bool) (i n : ℕ) → count_from p i n ≤ n
unfolding count_from
count_from-le p i zero = omega arith
count_from-le p i (suc n) = ground (arith, count_from-le p (i + 1) n)

-- A slot below the end is among the slots from 0 on.
below {ℓ} :
    {A : Type ℓ} (b : Bool) (i n : ℕ) (x y : A)
    → i < n
    → (if leb 0 i && (ltb i (0 + n) && b) then x else y) ≡ (if b then x else y)
below true i n x y h = let e : (leb 0 i && (ltb i (0 + n) && true)) ≡ true = ground arith in rw e
below false i n x y h = let e : (leb 0 i && (ltb i (0 + n) && false)) ≡ false = ground arith in rw e

module _ {F : Float} where
  init-count :
      (raw : ℕ → Node F) (raw_next : ℕ → ℤ) (n : ℕ) (g : Graph F)
      → n ≤ cortex_capacity
      → (init raw raw_next n g).node_count ≡ n
  unfolding init
  init-count raw raw_next n g h = ground arith

  init-memory :
      (raw : ℕ → Node F) (raw_next : ℕ → ℤ) (n : ℕ) (g : Graph F)
      → n ≤ cortex_capacity
      → (i : ℕ) → i < n
      → (init raw raw_next n g).cortex_memory i ≡ init_node
  unfolding init
  init-memory raw raw_next n g h i lt =
      let e : (if ltb n cortex_capacity then n else cortex_capacity) ≡ n = ground arith in
      rw (e, lt→ltb i n lt)

module _ {F : Float} (img : FloatImage F) (raw : ℕ → Node F) (raw_next : ℕ → ℤ) where
  -- `h` and `ds` are `g` and `cs` as far as the file holds them: live nodes have their edges back,
  -- with no provenance, dead slots hold fresh nodes, active clusters are as they were.
  pub record Remembered (g : Graph F) (cs : ℕ → Cluster F) (h : Graph F) (ds : ℕ → Cluster F)
      : Type 0 where
    pub count : h.node_count ≡ g.node_count
    pub nodes :
        (i : ℕ)
        → i < g.node_count
        → h.cortex_memory i ≡ (
            if (g.cortex_memory i).alive then kept img (g.cortex_memory i) init_node else init_node)
    pub clusters :
        (i : ℕ) → i < lang_clusters → ds i ≡ (if (cs i).active then cs i else empty_cluster)

  abbrev header_of : Graph F → (ℕ → Cluster F) → Header
  header_of g cs = record {
    magic = fpsan_magic;
    version = fpsan_version;
    node_count = g.node_count;
    cortex_active_count = count_from (λ i. (cs i).active) 0 lang_clusters;
    alive_node_count = count_from (λ i. (g.cortex_memory i).alive) 0 g.node_count;
  }

  -- `wake` on a header and two blocks that are read back.
  wake_lem :
      (header : Header) (cortex_bytes graph_bytes : Bytes) (g' : Graph F) (stored : ℕ → Cluster F)
      (restored : ℕ → Node F)
      → IsHeader header
      → header.magic ≡ fpsan_magic
      → header.node_count < 2 ^ 31
      → read_clusters img header.cortex_active_count
          (cortex_bytes ++ graph_bytes)
          (λ i. empty_cluster)
        ≡ some (stored, graph_bytes)
      → read_nodes img header.alive_node_count header.node_count graph_bytes
          (init raw raw_next header.node_count g').cortex_memory
        ≡ some restored
      → wake img raw raw_next (encode_header header ++ (cortex_bytes ++ graph_bytes)) g'
        ≡ some
            (record (init raw raw_next header.node_count g') { cortex_memory = restored }, stored)
  unfolding wake
  wake_lem header cortex_bytes graph_bytes g' stored restored fits magic small clusters nodes =
      let good : (header.magic == fpsan_magic) ≡ true = ground arith in
      rw (
        fread-append header_size (encode_header header) (cortex_bytes ++ graph_bytes)
            (length-encode_header header),
        decode-encode_header header fits,
        good,
        clusters,
        decode-encode_header header fits,
        count_small header.node_count small,
        nodes,
        decode-encode_header header fits,
        count_small header.node_count small,
        wake,
      )

  -- For an arena within its capacity whose live nodes and active clusters have fields that fit
  -- their records: from the file that `sleep` writes, `wake` succeeds, over whatever brain and
  -- memory it starts from. The node count is as before; a live node has its edges of both kinds
  -- again, without their provenance, and no activation; every dead slot holds a fresh live node;
  -- active clusters are as they were, and the others are empty.
  pub wake-sleep :
      (g g' : Graph F) (cs : ℕ → Cluster F)
      → g.node_count ≤ cortex_capacity
      → AllNodes img g.cortex_memory
      → AllClusters img cs
      → (h : Graph F) × (ds : ℕ → Cluster F) × (wake img raw raw_next (sleep img g cs) g'
          ≡ some (h, ds))
        × Remembered g cs h ds
  unfolding sleep
  wake-sleep g g' cs small nodes_fit clusters_fit =
      let header = header_of g cs in
      let fresh = init raw raw_next g.node_count g' in
      let cortex_bytes = cortex_block img cs 0 lang_clusters in
      let graph_bytes = node_block img g.cortex_memory 0 g.node_count in
      let restored = restored_nodes img g.cortex_memory 0 g.node_count fresh.cortex_memory in
      let stored = stored_clusters img cs 0 lang_clusters (λ i. empty_cluster) in
      (
        record fresh { cortex_memory = restored },
        stored,
        wake_lem header cortex_bytes graph_bytes g' stored restored
            (record {
              magic = omega arith;
              version = omega arith;
              nodes = omega arith;
              clusters = omega (arith, count_from-le (λ i. (cs i).active) 0 lang_clusters);
              alive = omega (arith, count_from-le (λ i. (g.cortex_memory i).alive) 0 g.node_count);
            })
            refl (omega arith)
            (read_clusters-cortex_block img cs lang_clusters 0 graph_bytes (λ i. empty_cluster)
              clusters_fit (omega arith))
            (read_nodes-node_block img g.cortex_memory g.node_count 0 g.node_count
              fresh.cortex_memory nodes_fit (omega arith) (omega arith)),
        record {
          count = init-count raw raw_next g.node_count g' small;
          nodes = λ i h.
              rw
                (
                  restored_nodes_lem img g.cortex_memory g.node_count 0 i fresh.cortex_memory,
                  init-memory raw raw_next g.node_count g' small i h,
                )
                (below (g.cortex_memory i).alive i g.node_count _ _ h);
          clusters = λ i h.
              stored_clusters_lem img cs lang_clusters 0 i (λ k. empty_cluster)
              ∙ below (cs i).active i lang_clusters (cs i) empty_cluster h;
        },
      )
