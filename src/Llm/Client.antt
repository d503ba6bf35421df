-- ===== src/Llm/Client.antt =====
-- `LLMAdapter.__init__`, `aclose`, `initialize_llm`, `dispose_llm` and `get_llm` of
-- backend/app/infrastructure/llm/llm_adapter.py.
use ai_developer_copilot_pla.Prelude.{ℤ, ◌++◌, Option, none, some}
use ai_developer_copilot_pla.Text.{Text, codes, rstrip}
use ai_developer_copilot_pla.Exn.{runtime}
use ai_developer_copilot_pla.Exec.{Exec, pure, raise, modify, ◌>>=◌, ◌>>◌}
use ai_developer_copilot_pla.Llm.Adapter.{LlmAdapter}
use ai_developer_copilot_pla.Process.{
  Process, Drivers, ClientSpec, open_client, close_client, get_settings,
}

-- The arguments of its `httpx.AsyncClient`.
unfoldable pub client_spec : Text → Text → ℤ → ClientSpec
unfolding rstrip
client_spec base_url api_key timeout_seconds =
    ClientSpec.http (rstrip b'/' base_url) (codes "Bearer " ++ api_key) (codes "application/json")
      10 timeout_seconds 30 5

module _ (d : Drivers) where
  abbrev new_adapter : Text → Text → Text → ℤ → ℤ → Exec Process LlmAdapter
  new_adapter base_url api_key model timeout_seconds max_retries = do
    client ← open_client d (client_spec base_url api_key timeout_seconds)
    pure (record { model = model; max_retries = max_retries; client = client })

  unfoldable pub initialize_llm : Exec Process (Unit {0})
  initialize_llm = do
    settings ← get_settings d
    adapter ←
        new_adapter settings.llm_base_url settings.llm_api_key settings.llm_model
          settings.llm_timeout_seconds settings.llm_max_retries
    modify (λ p. record p { llm_adapter = some adapter })

  abbrev pub dispose_adapter : Option LlmAdapter → Exec Process (Unit {0})
  dispose_adapter none = pure tt
  dispose_adapter (some adapter) = do
    close_client d adapter.client
    modify (λ p. record p { llm_adapter = none })

  unfoldable pub dispose_llm : Exec Process (Unit {0})
  dispose_llm p = dispose_adapter p.llm_adapter p

abbrev adapter_or_raise : Option LlmAdapter → Exec Process LlmAdapter
adapter_or_raise none =
    raise
      (runtime (codes "LLM adapter not initialized. Call initialize_llm() from the app lifespan."))
adapter_or_raise (some adapter) = pure adapter

unfoldable pub get_llm : Exec Process LlmAdapter
get_llm p = adapter_or_raise p.llm_adapter p
