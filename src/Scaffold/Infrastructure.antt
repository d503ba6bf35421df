-- ===== src/Scaffold/Infrastructure.antt =====
-- Files that scripts/generate_scaffold.py writes.
pub mod Kubernetes
pub mod Helm
pub mod Terraform
pub mod Monitoring
pub mod List
