-- ===== src/Scaffold/Workflows.antt =====
-- Files that scripts/generate_scaffold.py writes.
pub mod Checks
pub mod Deploys
pub mod List
