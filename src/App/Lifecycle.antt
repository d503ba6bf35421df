-- ===== src/App/Lifecycle.antt =====
-- What the lifespan opens, closes and leaves open.
use ai_developer_copilot_pla.Prelude.{ℕ, ◌≡◌, refl, List, [], ◌∷◌, ◌++◌, some}
use ai_developer_copilot_pla.Exn.{Result, ok, raised}
use ai_developer_copilot_pla.Exec.{Exec, resume}
use ai_developer_copilot_pla.Config.{Settings, Required, Tunables, settings_of}
use ai_developer_copilot_pla.Process.{
  Process, fresh, Drivers, ClientSpec, Event, opened, close_called,
}
use ai_developer_copilot_pla.Db.Engines.{session_maker, initialize_db, dispose_db}
use ai_developer_copilot_pla.Cache.Client.{initialize_redis, dispose_redis}
use ai_developer_copilot_pla.Vector.Client.{initialize_qdrant, dispose_qdrant}
use ai_developer_copilot_pla.Storage.Client.{initialize_storage}
use ai_developer_copilot_pla.Llm.Client.{initialize_llm, dispose_llm}
use ai_developer_copilot_pla.Embedding.Client.{initialize_embedding, dispose_embedding}
use ai_developer_copilot_pla.App.Slots.{Service}
use ai_developer_copilot_pla.App.Effects.{spec_of, storage_of, llm_of, embedding_of}
use ai_developer_copilot_pla.App.Lifespan.{startup, shutdown, lifespan}

-- No constructor fails, and none of the calls that close a client.
pub record Works (d : Drivers) : Type 0 where
  pub constructs : (trace : List Event) (spec : ClientSpec) → d.construct trace spec ≡ ok tt
  pub closes : (trace : List Event) (client : ℕ) → d.close trace client ≡ ok tt

-- The six clients of a process, in the order in which they are constructed.
abbrev pub opened_clients : Settings → List Event
opened_clients s =
    opened 0 (spec_of s Service.database)
    ∷ opened 1 (spec_of s Service.redis)
    ∷ opened 2 (spec_of s Service.qdrant)
    ∷ opened 3 (spec_of s Service.storage)
    ∷ opened 4 (spec_of s Service.llm)
    ∷ opened 5 (spec_of s Service.embedding)
    ∷ []

-- A process whose startup is over.
abbrev pub started : Settings → Process
started s = record {
  trace = opened_clients s;
  settings_cache = some s;
  engine_write = some 0;
  engine_read = some 0;
  session_write = some (session_maker 0);
  session_read = some (session_maker 0);
  redis_pool = some 1;
  qdrant_client = some 2;
  storage_adapter = some (storage_of s 3);
  llm_adapter = some (llm_of s 4);
  embedding_adapter = some (embedding_of s 5);
}

-- The process after its shutdown: five of the six clients were closed, in the reverse of the order
-- of their construction. The storage adapter with its boto3 client is still there.
abbrev pub stopped : Settings → Process
stopped s = record fresh {
  trace =
      opened_clients s
      ++ close_called 5 ∷ close_called 4 ∷ close_called 2 ∷ close_called 1 ∷ close_called 0 ∷ [];
  settings_cache = some s;
  storage_adapter = some (storage_of s 3);
}

module _ (d : Drivers) (w : Works d) (s : Settings) where
  pub shutdown-started : shutdown d (started s) ≡ (ok tt, stopped s)
  unfolding shutdown dispose_embedding dispose_llm dispose_qdrant dispose_redis dispose_db
  shutdown-started = simp w.closes

-- How the lifespan ends after an application with the given result.
abbrev pub ended : Result (Unit {0}) → Settings → Result (Unit {0}) × Process
ended (ok done) s = (ok tt, stopped s)
ended (raised e) s = (raised e, started s)

resume-shutdown :
    (d : Drivers)
    → Works d
    → (s : Settings) (result : Result (Unit {0}))
    → resume result (started s) (λ _. shutdown d) ≡ ended result s
resume-shutdown d w s (ok done) = shutdown-started d w s
resume-shutdown d w s (raised e) = refl

-- Over a working environment and working drivers, a startup of a fresh process constructs the six
-- clients from the settings, in the order database, Redis, Qdrant, storage, LLM, embedding, and
-- leaves each `_state` with its client.
startup-fresh :
    (d : Drivers)
    → Works d
    → (r : Required) (t : Tunables) → d.environment [] ≡ ok (r, t)
    → startup d fresh ≡ (ok tt, started (settings_of r t))
unfolding startup initialize_db initialize_redis initialize_qdrant initialize_storage initialize_llm
    initialize_embedding
startup-fresh d w r t e = simp (e, w.constructs)

-- The same where `create_app` has read the settings.
pub startup-cached :
    (d : Drivers)
    → Works d
    → (s : Settings) → startup d (record fresh { settings_cache = some s }) ≡ (ok tt, started s)
unfolding startup initialize_db initialize_redis initialize_qdrant initialize_storage initialize_llm
    initialize_embedding
startup-cached d w s = simp w.constructs

-- Over a working environment and working drivers, on a fresh process, and if the application leaves
-- the state of the process alone: where the application returns, the lifespan closes every client but the one of the
-- object storage, in reverse order; where it raises, the lifespan raises the same and closes none.
pub lifespan-fresh :
    (d : Drivers)
    → Works d
    → (r : Required) (t : Tunables) → d.environment [] ≡ ok (r, t)
    → (application : Exec Process (Unit {0})) (result : Result (Unit {0}))
    → application (started (settings_of r t)) ≡ (result, started (settings_of r t))
    → lifespan d application fresh ≡ ended result (settings_of r t)
unfolding lifespan
lifespan-fresh d w r t e application result left =
    rw (startup-fresh d w r t e, left) (resume-shutdown d w (settings_of r t) result)
