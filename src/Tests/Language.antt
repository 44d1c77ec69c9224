-- ===== src/Tests/Language.antt =====
-- The language cortex (src/core/fpsan_language.h) at concrete inputs.
use engram_core.Prelude.{
  ℕ, zero, suc, refl, List, true, some, ℤ, pos, codes, map, inl, inr, All, arith,
}
use engram_core.Prelude.Float.{thousandths, thousandths-IsOrder}
use engram_core.Memory.{Cluster, empty_cluster}
use engram_core.Memory.Wire.{zeros}
use engram_core.Language.{encode_word_hash, perceive}
use engram_core.Language.Frame.{IsSpike, IsCluster, Settled, perceive-Settled}
use engram_core.Language.Choice.{Chosen, perceive-Chosen}

abbrev pub untaught : ℕ → Cluster thousandths
untaught i = empty_cluster

abbrev otter : List ℤ
otter = encode_word_hash (codes "otter")

zeros-IsSpike : (n : ℕ) → All IsSpike (map (λ b. pos b) (zeros n))
zeros-IsSpike zero = tt
zeros-IsSpike (suc n) = (inr (inl refl), zeros-IsSpike n)

pub untaught-IsCluster : (i : ℕ) → IsCluster (untaught i)
unfolding empty_cluster
untaught-IsCluster i = record { few = omega arith; freezes = refl; spikes = zeros-IsSpike 256 }

perceive-Settled_example :
    Settled otter true
      (some (codes "otter"))
      untaught
      (perceive otter true (some (codes "otter")) untaught)
    × ((i : ℕ) → IsCluster ((perceive otter true (some (codes "otter")) untaught).0 i))
perceive-Settled_example =
    perceive-Settled otter true (some (codes "otter")) untaught untaught-IsCluster

perceive-Chosen_example :
    Chosen otter untaught true (perceive otter true (some (codes "otter")) untaught).1
perceive-Chosen_example =
    perceive-Chosen otter untaught thousandths-IsOrder true (some (codes "otter"))
