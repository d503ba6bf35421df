-- ===== src/Vector/Names.antt =====
-- `collection_name` of backend/app/infrastructure/vector/qdrant_client.py.
use ai_developer_copilot_pla.Prelude.{◌++◌}
use ai_developer_copilot_pla.Text.{Text, codes, replace}

unfoldable pub collection_name : Text → Text → Text
unfolding replace
collection_name tenant_id repository_id =
    let safe_tenant = replace b'-' b'_' tenant_id in
    let safe_repo = replace b'-' b'_' repository_id in
    codes "tenant_" ++ (safe_tenant ++ (codes "_repo_" ++ safe_repo))
