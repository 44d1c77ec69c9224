-- ===== src/Lib.antt =====
-- Engram Core: the stateful core of a cognitive daemon. A flat graph of nodes with typed,
-- weighted edges (src/core/cluster_graph.h) is shared by all parts. Sensors reach the cognitive
-- loop through a ring buffer (src/core/sensor_bus.h); the loop fires nodes, spreads activation,
-- predicts and plans on the graph; prediction errors set how strongly the graph learns
-- (src/core/fpsan_neuromod.h); memory tiers decide how fast activation fades
-- (src/core/fpsan_temporal_memory.h); drives raise questions and goals (src/core/fpsan_drives.h);
-- a registry runs the pluggable modules (src/core/fpsan_module_registry.h), and another keeps the
-- artefacts that the daemon writes for itself (src/core/fpsan_self_edit_registry.h). A goal
-- becomes a chain of motor nodes, which is screened and then posted to the motor thread. The
-- lexer reads text into words, which become clusters of the language cortex and bonds of the
-- graph; graph and cortex are saved to a file and restored from it.
--
-- Files and code:
--   Sensor (SensorBus of src/core/sensor_bus.h): `push`, `pop` and `size`. Sensor/Queue compares
--     them with a bounded queue, Sensor/Spsc has the steps of both threads.
--   Graph/Node (ClusterNode of src/core/cluster_graph.h): the edge arrays with `add_edge`,
--     `add_inverse_edge`, `_sort_edges` and `prune`; Graph/Edges, AddEdge and Lookup are about
--     them.
--   Graph/Arena (ClusterGraph): `init`, `spawn`, `kill` and the stack of free slots;
--     Graph/FreeList, Lifetime, Accounting and Aba are about them.
--   Graph/Chain: `record_fire`, `reset_chain`, `apply_stdp`, `apply_chain_stdp`, `assign_credit`;
--     Graph/History and Stdp are about them.
--   Graph/Spread, Graph/Activity: `spread_activation`, `spread_activation_inverse`,
--     `spread_typed`, `spread_typed_inverse`, `bind_and_query`, `clear_activation`, `tick`,
--     `get_top_activated`; Graph/Locality and Ranking are about them.
--   Graph/Predict: `predict_chain`, `predict_chain_typed` and the counts; Graph/Strongest is
--     about the choice of an edge. Graph/Plan: `plan_path` and `plan_path_typed`;
--     Graph/PlanSearch, PlanScan, PlanLoop and PlanSound are about the search. Graph/Analogy:
--     `scan_analogies`.
--   Planner (src/core/fpsan_sandbox.h): SemanticPlanner and ShadowBrain, with Planner/Plan and
--     Veto.
--   GoalGate (the goal pursuit of src/fpsan_live_core.cpp and its helpers): `goal_step` collects,
--     screens and posts a motor chain; GoalGate/Policy is about the disk policy,
--     GoalGate/Screened and Gate about what is posted, GoalGate/Endless about cycles.
--   Motor (src/core/fpsan_motor.h): MotorSequence, MotorQueue and procedures; Motor/Thread is the
--     motor thread, with Motor/Queue, Killed, Typing and Chunks.
--   Memory (src/core/fpsan_memory.h, and the clusters of src/core/fpsan_language.h): `sleep` and
--     `wake`; Memory/Wire has the bytes, the other files under Memory are about what is read
--     back.
--   Lexer (src/core/fpsan_lexer.h): Lexicon, with Lexer/Tokenizer and Grouper; Lexer/Dictionary
--     has the built-in words and the dictionary file. Lexer/Trie, Alloc, Known, Insert and Core
--     are about the lexicon, Lexer/Tokens about the tokens, Lexer/Grammar, Matched and Phrases
--     about the phrases.
--   Language (src/core/fpsan_language.h): SpikingTokenizer and `perceive`; Language/Choice and
--     Frame are about which cluster answers and what it learns.
--   Lexer/Spelling (src/core/fpsan_lexer.h): `levenshtein_dist`, with Lexer/EditDistance. Ingest:
--     `ingest_raw_sequence` over lexicon, cortex and graph, with Ingest/Sound about what stays
--     sound and Ingest/Bonds about the bonds.
--   Sequencer (src/core/fpsan_sequencer.h): goals, ticks and the choice of an action;
--     Sequencer/Held and Goal are about goals under ticks.
--   WorldModel (src/core/fpsan_world_model.h), Neuromod (src/core/fpsan_neuromod.h),
--     Metacognition (src/core/fpsan_metacognition.h): one file each.
--   Temporal (src/core/fpsan_temporal_memory.h): `promote_to_l1`, `evict_lru_`, `spawn_episode`,
--     `seal_directive`, `clear_working_slots`; Temporal/Roster and Eviction are about the roster.
--   Drives (HomeostaticDrives of src/core/fpsan_drives.h), with Drives/Words about the unknown
--     words; Drives/Goals is GoalPlanner.
--   Modules (src/core/fpsan_module_registry.h, src/core/fpsan_iface.h), with Modules/Quarantine.
--   Scheduler (src/core/fpsan_san_scheduler.h, and the poster that src/fpsan_live_core.cpp
--     binds): MpmcQueue and SANScheduler; Scheduler/Queue compares the queue with a bounded one,
--     Scheduler/Propagate and Drain are about `drain_until`.
--   SelfEdit (src/core/fpsan_self_edit_registry.h), with SelfEdit/Cap and SelfEdit/Janitor.
--   Prelude: numbers, lists, stores, strings and the float interface. Tests: concrete inputs.
--
-- Reading the model. A struct is a record and a call that changes it a function from the old
-- state to the new one, paired with the result. An array with a count is the list of the slots
-- below the count; the arena is a function from slots. An id is a signed number where the source
-- tests it for being negative. A `float` is an element of an arithmetic that is a parameter
-- (Prelude/Float): the tests `<` and `<=`, which are apart since a NaN fails both, the operations
-- and the literals. Where a theorem needs that these are orders it says so; that excludes NaN.
-- Tests use an arithmetic of signed thousandths. The global neuromodulator is an argument of the
-- calls that read it. Words of 32 and 64 bits wrap where the source lets them: the packed head of
-- the free stack, tick differences, failure counts and byte totals. The signed difference of two
-- positions in the scheduler queue (src/core/fpsan_san_scheduler.h) wraps as well, where C++
-- leaves its overflow undefined. `levenshtein_dist` is modelled without the 65 by 65 table of the
-- source: its callers pass words of at most 63 bytes.
--
-- Fuel. `spread_*` recurse on the hops left of MAX_REASONING_DEPTH. The search of `plan_path` has
-- one round more than there are slots, and the walk back as many as the output has room;
-- Graph/PlanSound shows that the search ends within that. `drain_until` has a round for each
-- event that the budget allows, after which the source stops too. The walks along EDGE_SEQUENCE
-- edges of GoalGate, and `motor_loop`, take the rounds as an argument; GoalGate/Gate and Endless
-- and Motor/Queue are about how many there must be. `group_phrases` and the reading of a
-- dictionary have a round for each token and byte. All other loops follow their array.
--
-- Threads. Calls under a lock run alone. Three places have threads: Sensor/Spsc for all
-- interleavings of producer and consumer, and Graph/Aba for a delayed `spawn`. The motor thread
-- of Motor/Thread reads what the rest of the program and Windows do from a world with a clock:
-- whether ESC is held, and when the main thread aborts a sequence or resets the kill switch.
-- Memory orders are taken as sequentially consistent.
--
-- Not modelled: Windows calls and other input and output, the vendored wasm3, benchmarks, scripts
-- and the daemon's main loops; of the modelled files `topology_hash`,
-- `reactivate_similar_episodes`, `wasm_file_changed_since` and what prints a status. The
-- ingestion of parsed sentences, the generation of text, the speech and screen sensors and the
-- research pipeline are not modelled.
pub mod Prelude
pub mod Neuromod
pub mod Sensor
pub mod Graph
pub mod Planner
pub mod GoalGate
pub mod Motor
pub mod Memory
pub mod Lexer
pub mod Language
pub mod Ingest
pub mod Sequencer
pub mod WorldModel
pub mod Temporal
pub mod Drives
pub mod Modules
pub mod SelfEdit
pub mod Scheduler
pub mod Metacognition
pub mod Tests
