-- ===== src/App/Create.antt =====
-- `create_app` of backend/app/main.py.
use ai_developer_copilot_pla.Text.{codes}
use ai_developer_copilot_pla.Exec.{Exec, lift, ◌>>=◌}
use ai_developer_copilot_pla.Config.{Settings}
use ai_developer_copilot_pla.Process.{Process, Drivers, get_settings}
use ai_developer_copilot_pla.Api.Fastapi.{Fastapi, Application}
use ai_developer_copilot_pla.Api.Router.{api_router}

abbrev pub application_of : Settings → Application
application_of settings = record {
  title = settings.app_name;
  version = codes "1.0.0";
  docs_url = codes "/api/docs";
  redoc_url = codes "/api/redoc";
  openapi_url = codes "/api/openapi.json";
}

module _ {R A H : Type 0} (f : Fastapi R A H) (health_check : H) where
  -- `create_app`, where `health_check` is the endpoint of the health router.
  unfoldable pub create_app : Drivers → Exec Process A
  create_app d = do
    settings ← get_settings d
    let application = f.fastapi (application_of settings)
    lift (f.mount application (api_router f health_check) settings.api_v1_prefix)
