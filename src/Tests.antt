-- ===== src/Tests.antt =====
-- Concrete runs, and the theorems at concrete inputs.
mod Plans
mod Manifests
mod Journals
mod Branches
mod Gates
mod Engines
mod Runs
mod Recoveries
mod Indexes
mod Locks
mod Guards
mod Shrinks
mod Scopes
