-- ===== src/Process.antt =====
-- The state of one process of the backend: the settings that `get_settings` of
-- backend/app/config.py has cached, the module-level `_state` objects of the infrastructure
-- modules, and the clients that were constructed and closed so far, in order.
-- Constructing and closing a client is third-party code. It is a parameter that may raise, and may
-- depend on all that was done before; a client is known by the place of its construction.
use ai_developer_copilot_pla.Prelude.{ℕ, Bool, List, [], ◌∷◌, ◌++◌, Option, none, some, ℤ, length}
use ai_developer_copilot_pla.Text.{Text}
use ai_developer_copilot_pla.Exn.{Result, ok, raised}
use ai_developer_copilot_pla.Exec.{Exec}
use ai_developer_copilot_pla.Config.{Required, Tunables, Settings, settings_of}
use ai_developer_copilot_pla.Llm.Adapter.{LlmAdapter}
use ai_developer_copilot_pla.Embedding.Adapter.{EmbeddingAdapter}

-- The arguments of each constructor.
pub data ClientSpec : Type 0 where
  -- `create_async_engine`: url, echo, pool_pre_ping, pool_size, max_overflow, and the size of the
  -- cache of prepared statements
  engine : Text → Bool → Bool → ℕ → ℕ → ℕ → ClientSpec
  -- `aioredis.from_url`: url, encoding, decode_responses, max_connections, and the two timeouts
  redis_pool : Text → Text → Bool → ℕ → ℕ → ℕ → ClientSpec
  -- `AsyncQdrantClient`: url, and the key if one is passed
  qdrant : Text → Option Text → ClientSpec
  -- `boto3.client('s3')`: endpoint, access key, secret key, region
  s3 : Text → Text → Text → Text → ClientSpec
  -- `httpx.AsyncClient`: base url, the two headers, and the timeouts connect, read, write, pool
  http : Text → Text → Text → ℕ → ℤ → ℕ → ℕ → ClientSpec

pub data Event : Type 0 where
  opened : ℕ → ClientSpec → Event
  close_called : ℕ → Event

-- `async_sessionmaker`: its engine and two options.
pub record SessionMaker : Type 0 where
  pub engine : ℕ
  pub expire_on_commit : Bool
  pub autoflush : Bool

-- The fields of `ObjectStorageAdapter`; `client` names its boto3 client.
pub record StorageAdapter : Type 0 where
  pub bucket : Text
  pub client : ℕ

pub record Process : Type 0 where
  pub trace : List Event
  pub settings_cache : Option Settings
  pub engine_write : Option ℕ
  pub engine_read : Option ℕ
  pub session_write : Option SessionMaker
  pub session_read : Option SessionMaker
  pub redis_pool : Option ℕ
  pub qdrant_client : Option ℕ
  pub storage_adapter : Option StorageAdapter
  pub llm_adapter : Option LlmAdapter
  pub embedding_adapter : Option EmbeddingAdapter

-- A process before anything is initialized.
abbrev pub fresh : Process
fresh = record {
  trace = [];
  settings_cache = none;
  engine_write = none;
  engine_read = none;
  session_write = none;
  session_read = none;
  redis_pool = none;
  qdrant_client = none;
  storage_adapter = none;
  llm_adapter = none;
  embedding_adapter = none;
}

pub record Drivers : Type 0 where
  pub environment : List Event → Result (Required × Tunables)
  pub construct : List Event → ClientSpec → Result (Unit {0})
  pub close : List Event → ℕ → Result (Unit {0})

module _ (d : Drivers) where
  abbrev opened_or : Result (Unit {0}) → ClientSpec → Exec Process ℕ
  opened_or (ok done) spec p =
      (ok (length p.trace), record p { trace = p.trace ++ opened (length p.trace) spec ∷ [] })
  opened_or (raised e) spec p = (raised e, p)

  abbrev pub open_client : ClientSpec → Exec Process ℕ
  open_client spec p = opened_or (d.construct p.trace spec) spec p

  abbrev pub close_client : ℕ → Exec Process (Unit {0})
  close_client id p = (d.close p.trace id, record p { trace = p.trace ++ close_called id ∷ [] })

  abbrev read_settings : Result (Required × Tunables) → Exec Process Settings
  read_settings (ok (r, t)) p =
      let s = settings_of r t in (ok s, record p { settings_cache = some s })
  read_settings (raised e) p = (raised e, p)

  abbrev cached_or_read : Option Settings → Exec Process Settings
  cached_or_read (some s) p = (ok s, p)
  cached_or_read none p = read_settings (d.environment p.trace) p

  -- `get_settings`, whose `lru_cache` keeps the one result and no exception.
  abbrev pub get_settings : Exec Process Settings
  get_settings p = cached_or_read p.settings_cache p
