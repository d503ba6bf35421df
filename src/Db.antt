-- ===== src/Db.antt =====
-- backend/app/infrastructure/db/session.py
pub mod Engines
pub mod Session
pub mod Atomicity
pub mod Serial
