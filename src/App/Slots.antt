-- ===== src/App/Slots.antt =====
-- The initializers and disposals of the infrastructure modules as operations that may be called in
-- any order, and what they do to the clients that the module-level `_state` objects hold.
use ai_developer_copilot_pla.Prelude.{ℕ, ◌≡◌, [], ◌∷◌, ◌++◌, Option, none, some, length}
use mathlib.Core.Option
use ai_developer_copilot_pla.Exn.{Exn, Result, ok, raised}
use ai_developer_copilot_pla.Exec.{Exec}
use ai_developer_copilot_pla.Llm.Adapter.{LlmAdapter}
use ai_developer_copilot_pla.Embedding.Adapter.{EmbeddingAdapter}
use ai_developer_copilot_pla.Process.{
  Process, Drivers, StorageAdapter, ClientSpec, opened, close_called,
}
use ai_developer_copilot_pla.Db.Engines.{initialize_db, dispose_db}
use ai_developer_copilot_pla.Cache.Client.{initialize_redis, dispose_redis}
use ai_developer_copilot_pla.Vector.Client.{initialize_qdrant, dispose_qdrant}
use ai_developer_copilot_pla.Storage.Client.{initialize_storage}
use ai_developer_copilot_pla.Llm.Client.{initialize_llm, dispose_llm}
use ai_developer_copilot_pla.Embedding.Client.{initialize_embedding, dispose_embedding}

pub data Service : Type 0 where
  database : Service
  redis : Service
  qdrant : Service
  storage : Service
  llm : Service
  embedding : Service

-- The services that have a disposal.
pub data Disposable : Type 0 where
  database : Disposable
  redis : Disposable
  qdrant : Disposable
  llm : Disposable
  embedding : Disposable

abbrev pub service_of : Disposable → Service
service_of Disposable.database = Service.database
service_of Disposable.redis = Service.redis
service_of Disposable.qdrant = Service.qdrant
service_of Disposable.llm = Service.llm
service_of Disposable.embedding = Service.embedding

abbrev pub initialize : Drivers → Service → Exec Process (Unit {0})
initialize d Service.database = initialize_db d
initialize d Service.redis = initialize_redis d
initialize d Service.qdrant = initialize_qdrant d
initialize d Service.storage = initialize_storage d
initialize d Service.llm = initialize_llm d
initialize d Service.embedding = initialize_embedding d

abbrev pub dispose : Drivers → Disposable → Exec Process (Unit {0})
dispose d Disposable.database = dispose_db d
dispose d Disposable.redis = dispose_redis d
dispose d Disposable.qdrant = dispose_qdrant d
dispose d Disposable.llm = dispose_llm d
dispose d Disposable.embedding = dispose_embedding d

-- The client of each service.
pub record Slots : Type 0 where
  pub database : Option ℕ
  pub redis : Option ℕ
  pub qdrant : Option ℕ
  pub storage : Option ℕ
  pub llm : Option ℕ
  pub embedding : Option ℕ

abbrev pub slots : Process → Slots
slots p = record {
  database = p.engine_write;
  redis = p.redis_pool;
  qdrant = p.qdrant_client;
  storage = Option.map (λ (a : StorageAdapter). a.client) p.storage_adapter;
  llm = Option.map (λ (a : LlmAdapter). a.client) p.llm_adapter;
  embedding = Option.map (λ (a : EmbeddingAdapter). a.client) p.embedding_adapter;
}

abbrev pub client_at : Service → Slots → Option ℕ
client_at Service.database v = v.database
client_at Service.redis v = v.redis
client_at Service.qdrant v = v.qdrant
client_at Service.storage v = v.storage
client_at Service.llm v = v.llm
client_at Service.embedding v = v.embedding

abbrev pub replace : Service → Option ℕ → Slots → Slots
replace Service.database x v = record v { database = x }
replace Service.redis x v = record v { redis = x }
replace Service.qdrant x v = record v { qdrant = x }
replace Service.storage x v = record v { storage = x }
replace Service.llm x v = record v { llm = x }
replace Service.embedding x v = record v { embedding = x }

-- The abstract view of an initializer of the service, from how it ends: it raises and changes
-- nothing, or the service gets a client constructed just now, in the place of the one it had.
pub data Initialized (d : Drivers) (s : Service) (p : Process) (end : Result (Unit {0}) × Process)
    : Type 0 where
  failed :
      (e : Exn)
      → end.0 ≡ raised e
      → slots end.1 ≡ slots p
      → end.1.trace ≡ p.trace
      → Initialized d s p end
  installed :
      (spec : ClientSpec)
      → end.0 ≡ ok tt
      → slots end.1 ≡ replace s (some (length p.trace)) (slots p)
      → end.1.trace ≡ p.trace ++ opened (length p.trace) spec ∷ []
      → Initialized d s p end

-- The abstract view of a disposal: the service has no client, and nothing changes; or its client is
-- closed and given up; or closing it raises, and the service keeps it.
pub data Disposed (d : Drivers) (s : Service) (p : Process) (end : Result (Unit {0}) × Process)
    : Type 0 where
  absent :
      client_at s (slots p) ≡ none
      → end.0 ≡ ok tt
      → slots end.1 ≡ slots p
      → end.1.trace ≡ p.trace
      → Disposed d s p end
  released :
      (c : ℕ)
      → client_at s (slots p) ≡ some c
      → end.0 ≡ ok tt
      → slots end.1 ≡ replace s none (slots p)
      → end.1.trace ≡ p.trace ++ close_called c ∷ []
      → Disposed d s p end
  refused :
      (c : ℕ) (e : Exn)
      → client_at s (slots p) ≡ some c
      → d.close p.trace c ≡ raised e
      → end.0 ≡ raised e
      → slots end.1 ≡ slots p
      → end.1.trace ≡ p.trace ++ close_called c ∷ []
      → Disposed d s p end
