-- ===== src/Tasks.antt =====
-- The Celery application of the workers.
pub mod Celery
pub mod Routing
