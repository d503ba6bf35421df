-- ===== src/Migrations.antt =====
-- backend/alembic/env.py, the module that Alembic runs.
pub mod Env
pub mod Transactions
