-- ===== src/Scaffold/Python/Interfaces.antt =====
-- The interface modules that `build_python_stubs` of scripts/generate_scaffold.py writes.
use ai_developer_copilot_pla.Prelude.{List, [], ◌∷◌, ◌++◌}
use ai_developer_copilot_pla.Text.{Text, codes}
use ai_developer_copilot_pla.Scaffold.Source.{py_module}

unfoldable pub api_routes : List Text
api_routes =
    codes "router"
    ∷ codes "auth"
    ∷ codes "tenants"
    ∷ codes "repositories"
    ∷ codes "analysis"
    ∷ codes "agents"
    ∷ codes "chat"
    ∷ codes "rag"
    ∷ codes "github"
    ∷ codes "dashboard"
    ∷ []

unfoldable pub route_stub : Text → Text × Text
route_stub name = (
  codes "backend/app/interfaces/api/v1/" ++ (name ++ codes ".py"),
  py_module (codes "API v1 routes: " ++ (name ++ codes ".")) [],
)

unfoldable pub schemas : List Text
schemas =
    codes "auth_schemas"
    ∷ codes "tenant_schemas"
    ∷ codes "repository_schemas"
    ∷ codes "analysis_schemas"
    ∷ codes "agent_schemas"
    ∷ codes "finding_schemas"
    ∷ codes "chat_schemas"
    ∷ codes "rag_schemas"
    ∷ codes "github_schemas"
    ∷ codes "dashboard_schemas"
    ∷ codes "common_schemas"
    ∷ []

unfoldable pub schema_stub : Text → Text × Text
schema_stub name = (
  codes "backend/app/interfaces/schemas/" ++ (name ++ codes ".py"),
  py_module (codes "Pydantic schemas: " ++ (name ++ codes ".")) [],
)

unfoldable pub middleware : List Text
middleware =
    codes "auth_middleware"
    ∷ codes "tenant_middleware"
    ∷ codes "rbac_middleware"
    ∷ codes "audit_middleware"
    ∷ codes "rate_limit_middleware"
    ∷ codes "request_logging_middleware"
    ∷ []

unfoldable pub middleware_stub : Text → Text × Text
middleware_stub name = (
  codes "backend/app/interfaces/middleware/" ++ (name ++ codes ".py"),
  py_module (codes "Middleware: " ++ (name ++ codes ".")) [],
)
