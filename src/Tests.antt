-- ===== src/Tests.antt =====
-- The theorems at concrete inputs that meet their hypotheses.
mod Sensor
mod Graph
mod Activity
mod Planning
mod Goals
mod Motor
mod Memory
mod Lexer
mod Language
mod Ingest
mod Sequencer
mod Daemon
mod Temporal
mod SelfEdit
mod Scheduler
