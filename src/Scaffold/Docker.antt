-- ===== src/Scaffold/Docker.antt =====
-- Files that scripts/generate_scaffold.py writes.
pub mod Compose
pub mod Files
pub mod List
