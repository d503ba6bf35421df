-- ===== src/Tests/Api.antt =====
-- The application over a FastAPI whose routers are the functions that they stand for.
use ai_developer_copilot_pla.Prelude.{
  ◌≡◌, ◌≢◌, refl, Option, none, some, Bool, false, ◌||◌, if◌then◌else◌, arith, All,
}
use ai_developer_copilot_pla.Text.{Text, codes, eq_text, eq_text_ne, strip_prefix}
use ai_developer_copilot_pla.Exn.{ok}
use ai_developer_copilot_pla.Config.{settings_of}
use ai_developer_copilot_pla.Process.{Process, fresh}
use ai_developer_copilot_pla.App.Create.{create_app}
use ai_developer_copilot_pla.App.Lifespan.{startup, shutdown}
use ai_developer_copilot_pla.Health.Endpoint.{ServiceStatus}
use ai_developer_copilot_pla.Health.Availability.{health_of, report, Answering}
use ai_developer_copilot_pla.Api.Fastapi.{
  Application, Fastapi, IsFastapi, IsPrefix, below, or_else, behind, own_urls,
}
use ai_developer_copilot_pla.Api.Routes.{health_path, create_app_routes}
use ai_developer_copilot_pla.Api.Serving.{Endpoint, request, health_served}
use ai_developer_copilot_pla.Tests.App.{required, tunables, defaults, drivers, drivers-Works}
use ai_developer_copilot_pla.Tests.Health.{services}

abbrev Routes : Type 0
Routes = Text → Option Endpoint

abbrev App : Type 0
App = (Text → Bool) × Routes

abbrev is_page : Application → Text → Bool
is_page x q =
    eq_text q x.docs_url
    || (eq_text q (codes "/docs/oauth2-redirect")
        || (eq_text q x.redoc_url || eq_text q x.openapi_url))

abbrev fastapi : Fastapi Routes App Endpoint
fastapi = record {
  new_router = λ tags q. none;
  get = λ r o h q. or_else (r q) (if eq_text q o.path then some h else none);
  include_router = λ r t q. or_else (r q) (t q);
  fastapi = λ x. (is_page x, λ q. none);
  mount = λ a r prefix.
      ok (a.0, λ q. or_else (a.1 q) (if a.0 q then none else behind (strip_prefix prefix q) r));
}

no_page : (x : Application) (q : Text) → All (λ u. q ≢ u) (own_urls x) → is_page x q ≡ false
no_page x q (docs, (redirect, (redoc, (openapi, _)))) =
    rw (eq_text_ne q _ docs, eq_text_ne q _ redirect, eq_text_ne q _ redoc, eq_text_ne q _ openapi)

fastapi-IsFastapi : IsFastapi fastapi (λ r. r) (λ a. a.0) (λ a. a.1)
fastapi-IsFastapi = record {
  empty = λ tags q. refl;
  decorated = λ r o h q plain. refl;
  included = λ r t q. refl;
  pages = no_page;
  no_endpoint = λ x q. refl;
  mounted = λ a r prefix p. (_, refl, λ q. refl);
}

api_v1-IsPrefix : IsPrefix (codes "/api/v1")
api_v1-IsPrefix = below (codes "api/v") b'1' (omega arith) (omega arith)

create_app_routes_example :
    (b : App) × (create_app fastapi (health_of services) drivers fresh
      ≡ (ok b, record fresh { settings_cache = some defaults }))
    × ((path : Text)
        → b.1 path ≡ (
            if eq_text path (health_path (codes "/api/v1"))
            then some (health_of services)
            else none))
unfolding settings_of
create_app_routes_example =
    create_app_routes fastapi (λ r. r) (λ a. a.0) (λ a. a.1) fastapi-IsFastapi (health_of services)
      drivers fresh (record fresh { settings_cache = some defaults }) defaults refl api_v1-IsPrefix

services-Answering : Answering services
services-Answering = record {
  times = (4, 1, 1999);
  database_in = refl;
  redis_in = refl;
  qdrant_in = refl;
  in_time = (omega arith, omega arith, omega arith);
  selected = refl;
  closes = λ t. refl;
  pinged = refl;
  listed = refl;
}

health_served_example :
    (b : App) × (p₀ : Process) × (p₁ : Process) × (p₂ : Process) × (create_app fastapi
        (health_of services)
        drivers
        fresh
      ≡ (ok b, p₀))
    × (startup drivers p₀ ≡ (ok tt, p₁))
    × (request (b.1 (codes "/api/v1/health")) p₁ ≡ some (ok (report ServiceStatus.ok)))
    × (shutdown drivers p₁ ≡ (ok tt, p₂))
    × (request (b.1 (codes "/api/v1/health")) p₂ ≡ some (ok (report ServiceStatus.error)))
unfolding settings_of
health_served_example =
    health_served fastapi (λ r. r) (λ a. a.0) (λ a. a.1) fastapi-IsFastapi services drivers
      drivers-Works services-Answering required tunables refl api_v1-IsPrefix
