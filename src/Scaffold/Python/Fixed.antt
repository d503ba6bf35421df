-- ===== src/Scaffold/Python/Fixed.antt =====
-- The single files that `build_python_stubs` of scripts/generate_scaffold.py writes.
use ai_developer_copilot_pla.Prelude.{List, [], ◌∷◌, ◌++◌}
use ai_developer_copilot_pla.Text.{Text, codes}
use ai_developer_copilot_pla.Scaffold.Source.{lines, py_module}

unfoldable pub github_webhook_py_text : Text
github_webhook_py_text = py_module (codes "GitHub webhook receiver.") []

unfoldable pub main_py_text : Text
main_py_text = py_module (codes "FastAPI application factory.") (
    lines (
      "from fastapi import FastAPI" ∷ "" ∷ "" ∷ "def create_app() -> FastAPI:"
      ∷ "    \"\"\"Create and configure the FastAPI application.\"\"\""
      ∷ "    app = FastAPI(title='AI Developer Copilot Platform', version='1.0.0')"
      ∷ "    return app" ∷ "" ∷ "" ∷ "app = create_app()" ∷ []))

unfoldable pub config_py_text : Text
config_py_text = py_module (codes "Application configuration via Pydantic BaseSettings.") (
    lines (
      "from pydantic_settings import BaseSettings, SettingsConfigDict" ∷ "" ∷ ""
      ∷ "class Settings(BaseSettings):" ∷ "    \"\"\"Environment-driven application settings.\"\"\""
      ∷ ""
      ∷ "    model_config = SettingsConfigDict(env_file='.env', env_file_encoding='utf-8', extra='ignore')"
      ∷ "" ∷ "    app_name: str = 'AI Developer Copilot Platform'"
      ∷ "    app_env: str = 'development'" ∷ "    api_v1_prefix: str = '/api/v1'"
      ∷ "    database_url: str" ∷ "    redis_url: str" ∷ "    qdrant_url: str"
      ∷ "    jwt_secret_key: str" ∷ "    jwt_algorithm: str = 'HS256'"
      ∷ "    access_token_expire_minutes: int = 15" ∷ "    refresh_token_expire_days: int = 7" ∷ ""
      ∷ "" ∷ "def get_settings() -> Settings:" ∷ "    \"\"\"Return cached settings instance.\"\"\""
      ∷ "    return Settings()" ∷ []))

unfoldable pub dependencies_py_text : Text
dependencies_py_text =
    py_module (codes "FastAPI dependency injection wiring.")
      (codes "# DI wiring: bridge application services and infrastructure implementations.\n")

unfoldable pub conftest_py_text : Text
conftest_py_text = py_module (codes "Shared pytest fixtures.") []

unfoldable pub markers : List Text
markers =
    codes "unit/domain/.gitkeep"
    ∷ codes "unit/application/.gitkeep"
    ∷ codes "unit/agents/.gitkeep"
    ∷ codes "integration/repositories/.gitkeep"
    ∷ codes "integration/services/.gitkeep"
    ∷ codes "integration/agents/.gitkeep"
    ∷ codes "e2e/auth/.gitkeep"
    ∷ codes "e2e/repositories/.gitkeep"
    ∷ codes "e2e/chat/.gitkeep"
    ∷ codes "e2e/analysis/.gitkeep"
    ∷ []

unfoldable pub marker : Text → Text × Text
marker sub = (codes "backend/tests/" ++ sub, [])
