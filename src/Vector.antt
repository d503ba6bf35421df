-- ===== src/Vector.antt =====
-- backend/app/infrastructure/vector/qdrant_client.py
pub mod Client
pub mod Names
pub mod Isolation
