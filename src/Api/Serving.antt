-- ===== src/Api/Serving.antt =====
-- A request for the health of the backend, from `create_app` to the end of the shutdown.
use ai_developer_copilot_pla.Prelude.{◌≡◌, ◌∙◌, [], Option, none, some, Bool}
use ai_developer_copilot_pla.Text.{Text, eq_text_refl}
use ai_developer_copilot_pla.Exn.{Result, ok}
use ai_developer_copilot_pla.Config.{Required, Tunables, settings_of}
use ai_developer_copilot_pla.Process.{Process, fresh, Drivers}
use ai_developer_copilot_pla.App.Create.{create_app}
use ai_developer_copilot_pla.App.Lifespan.{startup, shutdown}
use ai_developer_copilot_pla.App.Lifecycle.{
  Works, started, stopped, startup-cached, shutdown-started,
}
use ai_developer_copilot_pla.Api.Fastapi.{Fastapi, IsFastapi, IsPrefix}
use ai_developer_copilot_pla.Api.Routes.{health_path, create_app_routes}
use ai_developer_copilot_pla.Health.Endpoint.{ServiceStatus, HealthResponse}
use ai_developer_copilot_pla.Health.Availability.{
  Services, health_of, report, health_of-stopped, Answering, Answering-healthy,
}

-- An endpoint answers from the state of the process.
abbrev pub Endpoint : Type 0
Endpoint = Process → Result HealthResponse

-- A `GET` on a process, if the path has an endpoint.
abbrev pub request : Option Endpoint → Process → Option (Result HealthResponse)
request none p = none
request (some endpoint) p = some (endpoint p)

module _ {R A S : Type 0} (f : Fastapi R A Endpoint) (find : R → Text → Option Endpoint)
    (page : A → Text → Bool) (endpoint : A → Text → Option Endpoint)
    (l : IsFastapi f find page endpoint) (v : Services S) (d : Drivers) (w : Works d) where
  -- Over FastAPI as it documents its routes, working drivers, services that answer the checks of a
  -- started process in time, and an environment whose prefix FastAPI takes: on a fresh process,
  -- `create_app`, the startup and the shutdown return. A request for `/health` behind the prefix is
  -- answered in between with `healthy` and no error, and behind the shutdown with `degraded` and an
  -- error for each service.
  pub health_served :
      Answering v
      → (r : Required) (t : Tunables) → d.environment [] ≡ ok (r, t)
      → IsPrefix (settings_of r t).api_v1_prefix
      → (b : A) × (p₀ : Process) × (p₁ : Process) × (p₂ : Process) × (create_app f
            (health_of v)
            d
            fresh
          ≡ (ok b, p₀))
        × (startup d p₀ ≡ (ok tt, p₁))
        × (request (endpoint b (health_path (settings_of r t).api_v1_prefix)) p₁
            ≡ some (ok (report ServiceStatus.ok)))
        × (shutdown d p₁ ≡ (ok tt, p₂))
        × (request (endpoint b (health_path (settings_of r t).api_v1_prefix)) p₂
            ≡ some (ok (report ServiceStatus.error)))
  health_served a r t e prefixed =
      let s = settings_of r t in
      let (b, created, routes) =
        create_app_routes f find page endpoint l (health_of v) d fresh
          (record fresh { settings_cache = some s }) s (rw e) prefixed in
      let found : endpoint b (health_path s.api_v1_prefix) ≡ some (health_of v) =
        routes (health_path s.api_v1_prefix) ∙ rw (eq_text_refl (health_path s.api_v1_prefix)) in
      (
        b,
        record fresh { settings_cache = some s },
        started s,
        stopped s,
        created,
        startup-cached d w s,
        rw (found, Answering-healthy v s a),
        shutdown-started d w s,
        rw (found, health_of-stopped v s),
      )
