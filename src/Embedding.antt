-- ===== src/Embedding.antt =====
-- backend/app/infrastructure/llm/embedding_adapter.py
pub mod Client
pub mod Faults
pub mod Sort
pub mod Reply
pub mod Adapter
pub mod Order
pub mod Batches
pub mod Complete
pub mod Single
pub mod Short
