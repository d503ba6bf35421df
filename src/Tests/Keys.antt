-- ===== src/Tests/Keys.antt =====
-- Keys, collection names and object paths of concrete ids.
use ai_developer_copilot_pla.Prelude.{◌≡◌, refl, arith, [], ◌∷◌}
use ai_developer_copilot_pla.Text.{Text, codes, Lacks}
use ai_developer_copilot_pla.Cache.Keys.{tenant_key}
use ai_developer_copilot_pla.Cache.Isolation.{tenant_key-inj}
use ai_developer_copilot_pla.Vector.Names.{collection_name}
use ai_developer_copilot_pla.Vector.Isolation.{IsUuid, collection_name-inj}
use ai_developer_copilot_pla.Storage.Keys.{storage_path}
use ai_developer_copilot_pla.Storage.Isolation.{storage_path-inj}

abbrev acme : Text
acme = codes "acme"

acme_no_colon : Lacks b':' acme
acme_no_colon = omega arith

acme_no_slash : Lacks b'/' acme
acme_no_slash = omega arith

abbrev id : Text
id = codes "0123abcd-89ef-4567-89ab-0123456789ab"

id-IsUuid : IsUuid id
id-IsUuid = record { long = refl; chars = omega arith }

tenant_key_test : tenant_key acme (codes "session" ∷ codes "7" ∷ []) ≡ codes "tenant:acme:session:7"
unfolding tenant_key
tenant_key_test = refl

collection_name_test : collection_name (codes "a-1") (codes "b-2") ≡ codes "tenant_a_1_repo_b_2"
unfolding collection_name
collection_name_test = refl

storage_path_test :
    storage_path acme (codes "r1") (codes "docs" ∷ codes "a.md" ∷ []) ≡ codes "acme/r1/docs/a.md"
unfolding storage_path
storage_path_test = refl

tenant_key-inj_example : (acme ≡ acme) × (codes "session" ∷ [] ≡ codes "session" ∷ [])
tenant_key-inj_example =
    tenant_key-inj acme acme (codes "session" ∷ []) (codes "session" ∷ []) acme_no_colon
      acme_no_colon (omega arith) (omega arith) refl

collection_name-inj_example : (id ≡ id) × (id ≡ id)
collection_name-inj_example =
    collection_name-inj id id id id id-IsUuid id-IsUuid id-IsUuid id-IsUuid refl

storage_path-inj_example : (acme ≡ acme) × (codes "r" ∷ codes "a" ∷ [] ≡ codes "r" ∷ codes "a" ∷ [])
storage_path-inj_example =
    storage_path-inj acme acme (codes "r") (codes "r") (codes "a" ∷ []) (codes "a" ∷ [])
      acme_no_slash acme_no_slash (omega arith) (omega arith) refl
