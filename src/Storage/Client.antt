-- ===== src/Storage/Client.antt =====
-- `ObjectStorageAdapter.__init__`, `initialize_storage` and `get_storage` of
-- backend/app/infrastructure/storage/object_storage_adapter.py.
use ai_developer_copilot_pla.Prelude.{Option, none, some}
use ai_developer_copilot_pla.Text.{codes}
use ai_developer_copilot_pla.Exn.{runtime}
use ai_developer_copilot_pla.Exec.{Exec, pure, raise, modify, ◌>>=◌}
use ai_developer_copilot_pla.Process.{
  Process, StorageAdapter, Drivers, ClientSpec, open_client, get_settings,
}

module _ (d : Drivers) where
  unfoldable pub initialize_storage : Exec Process (Unit {0})
  initialize_storage = do
    settings ← get_settings d
    client ← open_client d (
        ClientSpec.s3 settings.object_storage_endpoint_url settings.object_storage_access_key
          settings.object_storage_secret_key settings.object_storage_region)
    modify (λ p. record p {
      storage_adapter = some (record { bucket = settings.object_storage_bucket; client = client });
    })

abbrev adapter_or_raise : Option StorageAdapter → Exec Process StorageAdapter
adapter_or_raise none = raise (
    runtime
      (codes "Object storage not initialized. Call initialize_storage() from the app lifespan."))
adapter_or_raise (some adapter) = pure adapter

unfoldable pub get_storage : Exec Process StorageAdapter
get_storage p = adapter_or_raise p.storage_adapter p
