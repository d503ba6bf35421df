-- ===== src/Scaffold/Python/Stubs.antt =====
-- `build_python_stubs` of scripts/generate_scaffold.py: every file that it writes, in order.
use ai_developer_copilot_pla.Prelude.{List, [], ◌∷◌, map}
use ai_developer_copilot_pla.Text.{Text, codes}
use ai_developer_copilot_pla.Scaffold.Python.Domain.{
  domain_entities, entity_stub, value_objects, value_stub, events, event_stub, interfaces,
  interface_stub,
}
use ai_developer_copilot_pla.Scaffold.Python.Services.{
  app_services, service_stub, infra_db, db_stub, orm_models, model_stub, repo_impls,
  repository_stub, infra_other, infra_stub,
}
use ai_developer_copilot_pla.Scaffold.Python.Interfaces.{
  api_routes, route_stub, schemas, schema_stub, middleware, middleware_stub,
}
use ai_developer_copilot_pla.Scaffold.Python.Agents.{
  agent_base, agent_base_stub, agents, agent_stubs,
}
use ai_developer_copilot_pla.Scaffold.Python.Fixed.{
  github_webhook_py_text, main_py_text, config_py_text, dependencies_py_text, conftest_py_text,
  markers, marker,
}
use mathlib.Core.List.{flatten}

unfoldable pub python_stubs : List (Text × Text)
unfolding flatten domain_entities entity_stub value_objects value_stub events event_stub interfaces
    interface_stub app_services service_stub infra_db db_stub orm_models model_stub repo_impls
    repository_stub infra_other infra_stub api_routes route_stub schemas schema_stub middleware
    middleware_stub agent_base agent_base_stub agents agent_stubs markers marker
python_stubs = flatten (
    map entity_stub domain_entities
    ∷ map value_stub value_objects
    ∷ map event_stub events
    ∷ map interface_stub interfaces
    ∷ map service_stub app_services
    ∷ map db_stub infra_db
    ∷ map model_stub orm_models
    ∷ map repository_stub repo_impls
    ∷ map infra_stub infra_other
    ∷ map route_stub api_routes
    ∷ ((codes "backend/app/interfaces/webhooks/github_webhook.py", github_webhook_py_text) ∷ [])
    ∷ map schema_stub schemas
    ∷ map middleware_stub middleware
    ∷ map agent_base_stub agent_base
    ∷ flatten (map agent_stubs agents)
    ∷ ((codes "backend/app/main.py", main_py_text)
        ∷ (codes "backend/app/config.py", config_py_text)
        ∷ (codes "backend/app/dependencies.py", dependencies_py_text)
        ∷ (codes "backend/tests/conftest.py", conftest_py_text)
        ∷ [])
    ∷ map marker markers
    ∷ [])
