-- ===== src/Api/Router.antt =====
-- The routers of backend/app/interfaces/api/v1/health.py and backend/app/interfaces/api/v1/router.py.
use ai_developer_copilot_pla.Prelude.{[], ◌∷◌}
use ai_developer_copilot_pla.Text.{codes}
use ai_developer_copilot_pla.Api.Fastapi.{Fastapi, Operation}

abbrev pub health_operation : Operation
health_operation = record {
  path = codes "/health";
  summary = codes "Platform health check";
  description =
      codes
        "Concurrently probes PostgreSQL (via PgBouncer), Redis, and Qdrant. Always returns HTTP 200. Use the ``status`` field to detect degraded state.";
}

module _ {R A H : Type 0} (f : Fastapi R A H) (health_check : H) where
  -- `router` of health.py behind the decorator of `health_check`.
  abbrev pub health_router : R
  health_router = f.get (f.new_router (codes "Health" ∷ [])) health_operation health_check

  abbrev pub api_router : R
  api_router = f.include_router (f.new_router []) health_router
