-- ===== src/Scaffold/Frontend.antt =====
-- Files that scripts/generate_scaffold.py writes.
pub mod Config
pub mod App
pub mod Typescript
pub mod Views
pub mod List
