-- ===== src/Api.antt =====
-- The API of the backend: backend/app/interfaces/api/v1/router.py and the routes of the application.
pub mod Fastapi
pub mod Router
pub mod Routes
pub mod Serving
