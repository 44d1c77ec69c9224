-- ===== src/Tests/Memory.antt =====
-- The file of the brain (src/core/fpsan_memory.h) at a concrete input.
use engram_core.Prelude.{ℕ, ◌≡◌, some, arith, minus_one}
use engram_core.Prelude.Float.{thousandths}
use engram_core.Graph.Arena.{Graph}
use engram_core.Memory.{Cluster, empty_cluster, sleep, wake}
use engram_core.Memory.Wire.{FloatImage, IsInt, word_of, int_of, word_of-lt, int_of-word_of}
use engram_core.Memory.ClusterBlock.{AllClusters}
use engram_core.Memory.NodeBlock.{AllNodes}
use engram_core.Memory.RoundTrip.{Remembered, wake-sleep}
use engram_core.Tests.Graph.{linked, blank}
use engram_core.Tests.Activity.{linked_graph}

abbrev image : FloatImage thousandths
image = record {
  Single = IsInt;
  bits = word_of;
  from_bits = int_of;
  bits_in_word = word_of-lt;
  bits_back = int_of-word_of;
}

abbrev silent_cortex : ℕ → Cluster thousandths
silent_cortex i = empty_cluster

linked-AllNodes : AllNodes image linked_graph.cortex_memory
linked-AllNodes i live = omega arith

silent-AllClusters : AllClusters image silent_cortex
unfolding empty_cluster
silent-AllClusters i on = cc

wake-sleep_example :
    (h : Graph thousandths) × (ds : ℕ → Cluster thousandths) × (wake image
        (λ i. linked)
        (λ i. minus_one)
        (sleep image linked_graph silent_cortex)
        blank
      ≡ some (h, ds))
    × Remembered image (λ i. linked) (λ i. minus_one) linked_graph silent_cortex h ds
wake-sleep_example =
    wake-sleep image (λ i. linked) (λ i. minus_one) linked_graph blank silent_cortex (omega arith)
      linked-AllNodes silent-AllClusters
