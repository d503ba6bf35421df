-- ===== src/App.antt =====
-- backend/app/main.py
pub mod Lifespan
pub mod Lifecycle
pub mod Failures
pub mod Getters
pub mod Create
pub mod Slots
pub mod Changes
pub mod Counts
pub mod Ledger
pub mod Leaks
pub mod Orderly
pub mod Release
pub mod Effects
pub mod Invariant
pub mod Refinement
pub mod Made
pub mod Sources
