-- ===== src/Embedding/Client.antt =====
-- `EmbeddingAdapter.__init__`, `aclose`, `initialize_embedding`, `dispose_embedding` and
-- `get_embedding` of backend/app/infrastructure/llm/embedding_adapter.py.
use ai_developer_copilot_pla.Prelude.{ℤ, pos, ◌++◌, Option, none, some}
use ai_developer_copilot_pla.Text.{Text, codes, rstrip}
use ai_developer_copilot_pla.Exn.{runtime}
use ai_developer_copilot_pla.Exec.{Exec, pure, raise, modify, ◌>>=◌, ◌>>◌}
use ai_developer_copilot_pla.Embedding.Adapter.{EmbeddingAdapter}
use ai_developer_copilot_pla.Process.{
  Process, Drivers, ClientSpec, open_client, close_client, get_settings,
}

-- The arguments of its `httpx.AsyncClient`.
unfoldable pub client_spec : Text → Text → ℤ → ClientSpec
unfolding rstrip
client_spec base_url api_key timeout_seconds =
    ClientSpec.http (rstrip b'/' base_url) (codes "Bearer " ++ api_key) (codes "application/json")
      10 timeout_seconds 30 5

module _ (d : Drivers) where
  abbrev new_adapter : Text → Text → Text → ℤ → ℤ → Exec Process EmbeddingAdapter
  new_adapter base_url api_key model batch_size timeout_seconds = do
    client ← open_client d (client_spec base_url api_key timeout_seconds)
    pure (record { model = model; batch_size = batch_size; client = client })

  -- `timeout_seconds` is left at its default.
  unfoldable pub initialize_embedding : Exec Process (Unit {0})
  initialize_embedding = do
    settings ← get_settings d
    adapter ←
        new_adapter settings.embedding_base_url settings.embedding_api_key settings.embedding_model
          settings.embedding_batch_size (pos 60)
    modify (λ p. record p { embedding_adapter = some adapter })

  abbrev pub dispose_adapter : Option EmbeddingAdapter → Exec Process (Unit {0})
  dispose_adapter none = pure tt
  dispose_adapter (some adapter) = do
    close_client d adapter.client
    modify (λ p. record p { embedding_adapter = none })

  unfoldable pub dispose_embedding : Exec Process (Unit {0})
  dispose_embedding p = dispose_adapter p.embedding_adapter p

abbrev adapter_or_raise : Option EmbeddingAdapter → Exec Process EmbeddingAdapter
adapter_or_raise none = raise (
    runtime (
      codes
        "Embedding adapter not initialized. Call initialize_embedding() from the app lifespan."))
adapter_or_raise (some adapter) = pure adapter

unfoldable pub get_embedding : Exec Process EmbeddingAdapter
get_embedding p = adapter_or_raise p.embedding_adapter p
