-- ===== src/Cache/Isolation.antt =====
-- Which Redis keys can be equal.
use ai_developer_copilot_pla.Prelude.{
  ◌≡◌, refl, sym, ◌∙◌, List, [], ◌∷◌, ◌++◌, append_assoc, append-nil, All,
}
use ai_developer_copilot_pla.Text.{Text, codes, join_rest, Lacks}
use ai_developer_copilot_pla.Text.Join.{
  Tail-join_rest, append-inj_Lacks, append-inj_left, join_rest-inj,
}
use ai_developer_copilot_pla.Cache.Keys.{tenant_key}

-- A key is the tenant's text behind the prefix, and each part behind a colon.
tenant_key-eq-join_rest :
    (tenant : Text) (parts : List Text)
    → tenant_key tenant parts ≡ codes "tenant:" ++ (tenant ++ join_rest (codes ":") parts)
unfolding tenant_key
tenant_key-eq-join_rest tenant [] = rw append-nil
tenant_key-eq-join_rest tenant (p ∷ parts) = refl

module _ (t u : Text) (ps qs : List Text) (ht : Lacks b':' t) (hu : Lacks b':' u) where
  segments-eq :
      tenant_key t ps ≡ tenant_key u qs
      → (t ≡ u) × (join_rest (codes ":") ps ≡ join_rest (codes ":") qs)
  segments-eq e =
      append-inj_Lacks b':' t u ht hu (Tail-join_rest b':' ps) (Tail-join_rest b':' qs) (
        append-inj_left (codes "tenant:")
          (sym (tenant_key-eq-join_rest t ps) ∙ e ∙ tenant_key-eq-join_rest u qs))

-- If neither tenant id holds a colon, equal Redis keys belong to the same tenant, whatever the
-- parts are.
tenant_key-tenant :
    (t u : Text) (ps qs : List Text)
    → Lacks b':' t
    → Lacks b':' u
    → tenant_key t ps ≡ tenant_key u qs
    → t ≡ u
tenant_key-tenant t u ps qs ht hu e = (segments-eq t u ps qs ht hu e).0

-- If neither tenant id and no part holds a colon, equal Redis keys have the same tenant and the same
-- parts.
pub tenant_key-inj :
    (t u : Text) (ps qs : List Text)
    → Lacks b':' t
    → Lacks b':' u
    → All (Lacks b':') ps
    → All (Lacks b':') qs
    → tenant_key t ps ≡ tenant_key u qs
    → (t ≡ u) × (ps ≡ qs)
tenant_key-inj t u ps qs ht hu hps hqs e =
    let parts = segments-eq t u ps qs ht hu e in (parts.0, join_rest-inj b':' ps qs hps hqs parts.1)

-- `tenant_key` does not look at its arguments: a part of one tenant's key can be moved into the
-- tenant id of another, which then has the same key.
tenant_key_collision :
    (tenant p : Text) (parts : List Text)
    → tenant_key (tenant ++ (codes ":" ++ p)) parts ≡ tenant_key tenant (p ∷ parts)
tenant_key_collision tenant p parts =
    rw (tenant_key-eq-join_rest, tenant_key-eq-join_rest tenant (p ∷ parts), append_assoc)
