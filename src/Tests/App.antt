-- ===== src/Tests/App.antt =====
-- The lifespan of a process whose drivers work, and of processes with one driver that fails.
use ai_developer_copilot_pla.Prelude.{◌≡◌, refl, List, [], none, some, ◌==◌, if◌then◌else◌}
use ai_developer_copilot_pla.Text.{codes}
use ai_developer_copilot_pla.Exn.{Result, ok, raised, http_request, value_error}
use ai_developer_copilot_pla.Exec.{Exec}
use ai_developer_copilot_pla.Config.{Required, Tunables, Settings, settings_of}
use ai_developer_copilot_pla.Process.{Process, fresh, Drivers, ClientSpec, Event}
use ai_developer_copilot_pla.Db.Engines.{initialize_db}
use ai_developer_copilot_pla.Cache.Client.{initialize_redis}
use ai_developer_copilot_pla.Vector.Client.{initialize_qdrant}
use ai_developer_copilot_pla.App.Lifespan.{startup, lifespan}
use ai_developer_copilot_pla.App.Lifecycle.{Works, stopped, lifespan-fresh}
use ai_developer_copilot_pla.App.Failures.{closed, lifespan_failed_startup}

abbrev pub required : Required
required = record {
  database_url = codes "postgresql+asyncpg://db/app";
  database_direct_url = codes "postgresql://db/app";
  redis_url = codes "redis://cache:6379/0";
  celery_broker_url = codes "redis://cache:6379/1";
  celery_result_backend = codes "redis://cache:6379/2";
  qdrant_url = codes "http://qdrant:6333";
  object_storage_endpoint_url = codes "http://minio:9000";
  object_storage_bucket = codes "copilot";
  object_storage_access_key = codes "access";
  object_storage_secret_key = codes "secret";
  llm_base_url = codes "https://llm.example/";
  llm_api_key = codes "key";
  embedding_base_url = codes "https://llm.example";
  embedding_api_key = codes "key";
  jwt_secret_key = codes "jwt";
}

abbrev pub tunables : Tunables
tunables = record {
  app_name = none;
  app_env = none;
  api_v1_prefix = none;
  qdrant_api_key = some [];
  object_storage_region = none;
  llm_model = none;
  llm_timeout_seconds = none;
  llm_max_retries = none;
  embedding_model = none;
  embedding_batch_size = none;
  jwt_algorithm = none;
  access_token_expire_minutes = none;
  refresh_token_expire_days = none;
}

abbrev pub defaults : Settings
defaults = settings_of required tunables

abbrev pub drivers : Drivers
drivers = record {
  environment = λ trace. ok (required, tunables);
  construct = λ trace spec. ok tt;
  close = λ trace client. ok tt;
}

pub drivers-Works : Works drivers
drivers-Works = record { constructs = λ trace spec. refl; closes = λ trace client. refl }

-- A vector database that refuses its configuration.
abbrev no_qdrant : List Event → ClientSpec → Result (Unit {0})
no_qdrant trace (ClientSpec.qdrant url key) = raised value_error
no_qdrant trace spec = ok tt

abbrev pub without_qdrant : Drivers
without_qdrant = record drivers { construct = no_qdrant }

-- A connection that breaks while it is closed.
abbrev breaking : Drivers
breaking = record drivers {
  close = λ trace client. if client == 5 then raised (http_request (codes "reset")) else ok tt;
}

abbrev pub idle : Exec Process (Unit {0})
idle p = (ok tt, p)

lifespan-fresh_example : lifespan drivers idle fresh ≡ (ok tt, stopped defaults)
lifespan-fresh_example =
    lifespan-fresh drivers drivers-Works required tunables refl idle (ok tt) refl

lifespan_failed_startup_example :
    (lifespan without_qdrant idle fresh ≡ (raised value_error, (startup without_qdrant fresh).1))
    × (closed (lifespan without_qdrant idle fresh).1.trace ≡ [])
unfolding initialize_db initialize_redis initialize_qdrant
lifespan_failed_startup_example =
    lifespan_failed_startup without_qdrant idle fresh value_error (unfold startup in refl)
