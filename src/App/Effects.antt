-- ===== src/App/Effects.antt =====
-- What an initializer and a disposal do to the `_state` of a service, and with which arguments its
-- client is constructed.
use ai_developer_copilot_pla.Prelude.{ℕ, none, some, true, false, pos}
use ai_developer_copilot_pla.Text.{codes}
use ai_developer_copilot_pla.Config.{Settings}
use ai_developer_copilot_pla.Process.{Process, StorageAdapter, ClientSpec}
use ai_developer_copilot_pla.Llm.Adapter.{LlmAdapter}
use ai_developer_copilot_pla.Embedding.Adapter.{EmbeddingAdapter}
use ai_developer_copilot_pla.Db.Engines.{session_maker}
use ai_developer_copilot_pla.Vector.Client.{key_argument}
use ai_developer_copilot_pla.Llm.Client.{client_spec as llm_client}
use ai_developer_copilot_pla.Embedding.Client.{client_spec as embedding_client}
use ai_developer_copilot_pla.App.Slots.{Service, Disposable}

-- The arguments of the constructor of a service's client.
abbrev pub spec_of : Settings → Service → ClientSpec
spec_of s Service.database = ClientSpec.engine s.database_url false true 5 10 0
spec_of s Service.redis = ClientSpec.redis_pool s.redis_url (codes "utf-8") true 20 5 5
spec_of s Service.qdrant = ClientSpec.qdrant s.qdrant_url (key_argument s.qdrant_api_key)
spec_of s Service.storage =
    ClientSpec.s3 s.object_storage_endpoint_url s.object_storage_access_key
      s.object_storage_secret_key s.object_storage_region
spec_of s Service.llm = llm_client s.llm_base_url s.llm_api_key s.llm_timeout_seconds
spec_of s Service.embedding = embedding_client s.embedding_base_url s.embedding_api_key (pos 60)

-- The adapters around a client.
abbrev pub storage_of : Settings → ℕ → StorageAdapter
storage_of s id = record { bucket = s.object_storage_bucket; client = id }

abbrev pub llm_of : Settings → ℕ → LlmAdapter
llm_of s id = record { model = s.llm_model; max_retries = s.llm_max_retries; client = id }

abbrev pub embedding_of : Settings → ℕ → EmbeddingAdapter
embedding_of s id = record {
  model = s.embedding_model;
  batch_size = s.embedding_batch_size;
  client = id;
}

-- What an initializer makes of the `_state` with its new client.
abbrev pub install : Service → Settings → ℕ → Process → Process
install Service.database s id p = record p {
  engine_write = some id;
  engine_read = some id;
  session_write = some (session_maker id);
  session_read = some (session_maker id);
}
install Service.redis s id p = record p { redis_pool = some id }
install Service.qdrant s id p = record p { qdrant_client = some id }
install Service.storage s id p = record p { storage_adapter = some (storage_of s id) }
install Service.llm s id p = record p { llm_adapter = some (llm_of s id) }
install Service.embedding s id p = record p { embedding_adapter = some (embedding_of s id) }

-- What a disposal makes of it.
abbrev pub give_up : Disposable → Process → Process
give_up Disposable.database p = record p {
  engine_write = none;
  engine_read = none;
  session_write = none;
  session_read = none;
}
give_up Disposable.redis p = record p { redis_pool = none }
give_up Disposable.qdrant p = record p { qdrant_client = none }
give_up Disposable.llm p = record p { llm_adapter = none }
give_up Disposable.embedding p = record p { embedding_adapter = none }
