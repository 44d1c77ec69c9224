-- ===== src/Graph.antt =====
-- The graph of src/core/cluster_graph.h: nodes with sorted edge arrays in a flat arena, the Treiber
-- stack of free slots, the temporal chain, spreading activation, prediction and path planning.
pub mod Node
pub mod Edges
pub mod AddEdge
pub mod Lookup
pub mod Arena
pub mod FreeList
pub mod Lifetime
pub mod Aba
pub mod Chain
pub mod History
pub mod Analogy
pub mod Stdp
pub mod Spread
pub mod Locality
pub mod Activity
pub mod Ranking
pub mod Plan
pub mod Predict
pub mod Strongest
pub mod Accounting
pub mod PlanSearch
pub mod PlanScan
pub mod PlanLoop
pub mod PlanSound
