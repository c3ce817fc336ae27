-- ===== src/Tests.antt =====
-- The theorems at concrete inputs.
mod Data
mod Budgets
mod Tables
mod Signals
mod Engines
mod Pipelines
mod Samples
mod Venues
mod Configs
mod Slices
mod Transformers
mod Commands
mod Replays
mod Columns
