-- ===== src/Health.antt =====
-- backend/app/interfaces/api/v1/health.py and the checks that it runs
pub mod Checks
pub mod Endpoint
pub mod Report
pub mod Loop
pub mod Gather
pub mod Availability
pub mod Absent
