-- ===== src/Vector/Client.antt =====
-- `initialize_qdrant`, `dispose_qdrant` and `get_qdrant_client` of
-- backend/app/infrastructure/vector/qdrant_client.py.
use ai_developer_copilot_pla.Prelude.{ℕ, Option, none, some, [], ◌∷◌}
use ai_developer_copilot_pla.Text.{Text, codes}
use ai_developer_copilot_pla.Exn.{runtime}
use ai_developer_copilot_pla.Exec.{Exec, pure, raise, modify, ◌>>=◌, ◌>>◌}
use ai_developer_copilot_pla.Process.{
  Process, Drivers, ClientSpec, open_client, close_client, get_settings,
}

-- `if settings.qdrant_api_key`: the key is passed only if it is there and not empty.
abbrev pub key_argument : Option Text → Option Text
key_argument none = none
key_argument (some []) = none
key_argument (some (c ∷ key)) = some (c ∷ key)

module _ (d : Drivers) where
  unfoldable pub initialize_qdrant : Exec Process (Unit {0})
  initialize_qdrant = do
    settings ← get_settings d
    client ←
        open_client d (ClientSpec.qdrant settings.qdrant_url (key_argument settings.qdrant_api_key))
    modify (λ p. record p { qdrant_client = some client })

  abbrev pub dispose_client : Option ℕ → Exec Process (Unit {0})
  dispose_client none = pure tt
  dispose_client (some client) = do
    close_client d client
    modify (λ p. record p { qdrant_client = none })

  unfoldable pub dispose_qdrant : Exec Process (Unit {0})
  dispose_qdrant p = dispose_client p.qdrant_client p

abbrev client_or_raise : Option ℕ → Exec Process ℕ
client_or_raise none =
    raise
      (runtime (codes "Qdrant not initialized. Call initialize_qdrant() from the app lifespan."))
client_or_raise (some client) = pure client

unfoldable pub get_qdrant_client : Exec Process ℕ
get_qdrant_client p = client_or_raise p.qdrant_client p
