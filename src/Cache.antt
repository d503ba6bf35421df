-- ===== src/Cache.antt =====
-- backend/app/infrastructure/cache/redis_client.py
pub mod Client
pub mod Keys
pub mod Isolation
