-- ===== src/Cache/Keys.antt =====
-- `tenant_key` of backend/app/infrastructure/cache/redis_client.py.
use ai_developer_copilot_pla.Prelude.{List, [], ◌∷◌, ◌++◌}
use ai_developer_copilot_pla.Text.{Text, codes, join}

unfoldable pub tenant_key : Text → List Text → Text
tenant_key tenant_id [] = codes "tenant:" ++ tenant_id
tenant_key tenant_id (p ∷ parts) =
    codes "tenant:" ++ (tenant_id ++ (codes ":" ++ join (codes ":") (p ∷ parts)))
