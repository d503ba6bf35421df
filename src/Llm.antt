-- ===== src/Llm.antt =====
-- backend/app/infrastructure/llm/llm_adapter.py
pub mod Client
pub mod Reply
pub mod Adapter
pub mod Generator
pub mod Asking
pub mod Abandoned
pub mod Retries
pub mod Reference
pub mod Streaming
pub mod Malformed
pub mod Asked
pub mod Payload
