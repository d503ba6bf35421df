-- ===== src/Storage/Keys.antt =====
-- `ObjectStorageAdapter.storage_path` of
-- backend/app/infrastructure/storage/object_storage_adapter.py.
use ai_developer_copilot_pla.Prelude.{List, [], ◌∷◌, ◌++◌}
use ai_developer_copilot_pla.Text.{Text, codes, join}

unfoldable pub storage_path : Text → Text → List Text → Text
storage_path tenant_id repository_id [] = tenant_id ++ (codes "/" ++ repository_id)
storage_path tenant_id repository_id (p ∷ parts) =
    let base = tenant_id ++ (codes "/" ++ repository_id) in
    base ++ (codes "/" ++ join (codes "/") (p ∷ parts))
