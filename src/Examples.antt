-- ===== src/Examples.antt =====
-- The theorems at concrete inputs, and runs of the model.
mod Fixtures
mod Windows
mod Clocks
mod Recoveries
mod Merges
mod Batches
mod Plans
mod Joins
mod Operators
mod Entries
mod Tracking
mod Lifecycles
mod Controls
mod Reductions
