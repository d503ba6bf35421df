-- ===== src/App/Getters.antt =====
-- Who gets a client, and when.
use ai_developer_copilot_pla.Prelude.{◌≡◌, refl}
use ai_developer_copilot_pla.Exn.{Result, ok, raised, runtime}
use ai_developer_copilot_pla.Config.{Settings}
use ai_developer_copilot_pla.Cache.Client.{get_redis}
use ai_developer_copilot_pla.Vector.Client.{get_qdrant_client}
use ai_developer_copilot_pla.Storage.Client.{get_storage}
use ai_developer_copilot_pla.Llm.Client.{get_llm}
use ai_developer_copilot_pla.Embedding.Client.{get_embedding}
use ai_developer_copilot_pla.App.Lifecycle.{started, stopped}

-- The result is a `RuntimeError`.
abbrev pub IsRuntime {ℓ} : {A : Type ℓ} → Result A → Type 0
IsRuntime (raised (runtime message)) = Unit
IsRuntime r = ⊥

-- After a startup each getter returns its client. After a shutdown each raises a `RuntimeError`,
-- but `get_storage`, which goes on returning the adapter.
getters_lifecycle :
    (s : Settings)
    → (((get_redis (started s)).0 ≡ ok 1) × IsRuntime (get_redis (stopped s)).0)
      × (((get_qdrant_client (started s)).0 ≡ ok 2) × IsRuntime (get_qdrant_client (stopped s)).0)
      × (((get_llm (started s)).0
            ≡ ok (record { model = s.llm_model; max_retries = s.llm_max_retries; client = 4 }))
          × IsRuntime (get_llm (stopped s)).0)
      × (((get_embedding (started s)).0
            ≡ ok (record {
              model = s.embedding_model;
              batch_size = s.embedding_batch_size;
              client = 5;
            }))
          × IsRuntime (get_embedding (stopped s)).0)
      × (((get_storage (started s)).0 ≡ (get_storage (stopped s)).0)
          × ((get_storage (stopped s)).0
              ≡ ok (record { bucket = s.object_storage_bucket; client = 3 })))
unfolding get_redis get_qdrant_client get_llm get_embedding get_storage
getters_lifecycle s = ((refl, tt), (refl, tt), (refl, tt), (refl, tt), (refl, refl))
