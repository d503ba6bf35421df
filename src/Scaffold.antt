-- ===== src/Scaffold.antt =====
-- The generator of the repository's layout.
pub mod Files
pub mod Layout
pub mod Generate
pub mod Preserves
pub mod Directories
pub mod Complete
pub mod Again
pub mod Source
pub mod Root
pub mod Backend
pub mod Python
pub mod Frontend
pub mod Docker
pub mod Workflows
pub mod Infrastructure
pub mod Main
pub mod Tidy
pub mod Steps
pub mod Start
pub mod Refinement
pub mod Written
pub mod Twice
pub mod Importable
