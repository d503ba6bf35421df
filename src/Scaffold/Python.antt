-- ===== src/Scaffold/Python.antt =====
-- Files that scripts/generate_scaffold.py writes.
pub mod Domain
pub mod Services
pub mod Interfaces
pub mod Agents
pub mod Fixed
pub mod Stubs
