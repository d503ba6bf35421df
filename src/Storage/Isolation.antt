-- ===== src/Storage/Isolation.antt =====
-- Which object keys can be equal.
use ai_developer_copilot_pla.Prelude.{
  ◌≡◌, sym, ◌∙◌, List, [], ◌∷◌, ◌++◌, append_assoc, append-nil, All,
}
use ai_developer_copilot_pla.Text.{Text, codes, join_rest, Lacks}
use ai_developer_copilot_pla.Text.Join.{Tail-join_rest, append-inj_Lacks, join_rest-inj}
use ai_developer_copilot_pla.Storage.Keys.{storage_path}

-- A path is the tenant's text, and every further segment behind a slash.
storage_path-eq-join_rest :
    (tenant repository : Text) (parts : List Text)
    → storage_path tenant repository parts ≡ tenant ++ join_rest (codes "/") (repository ∷ parts)
unfolding storage_path
storage_path-eq-join_rest tenant repository [] = rw append-nil
storage_path-eq-join_rest tenant repository (p ∷ parts) = rw append_assoc

module _ (t u r s : Text) (ps qs : List Text) (ht : Lacks b'/' t) (hu : Lacks b'/' u) where
  segments-eq :
      storage_path t r ps ≡ storage_path u s qs
      → (t ≡ u) × (join_rest (codes "/") (r ∷ ps) ≡ join_rest (codes "/") (s ∷ qs))
  segments-eq e =
      append-inj_Lacks b'/' t u ht hu (Tail-join_rest b'/' (r ∷ ps)) (Tail-join_rest b'/' (s ∷ qs))
        (sym (storage_path-eq-join_rest t r ps) ∙ e ∙ storage_path-eq-join_rest u s qs)

-- If neither tenant id holds a slash, equal object keys belong to the same tenant, whatever the
-- repository ids and the parts are.
pub storage_path-tenant :
    (t u r s : Text) (ps qs : List Text)
    → Lacks b'/' t
    → Lacks b'/' u
    → storage_path t r ps ≡ storage_path u s qs
    → t ≡ u
storage_path-tenant t u r s ps qs ht hu e = (segments-eq t u r s ps qs ht hu e).0

-- If no id and no part holds a slash, equal object keys have the same tenant, the same repository
-- and the same parts.
pub storage_path-inj :
    (t u r s : Text) (ps qs : List Text)
    → Lacks b'/' t
    → Lacks b'/' u
    → All (Lacks b'/') (r ∷ ps)
    → All (Lacks b'/') (s ∷ qs)
    → storage_path t r ps ≡ storage_path u s qs
    → (t ≡ u) × (r ∷ ps ≡ s ∷ qs)
storage_path-inj t u r s ps qs ht hu hps hqs e =
    let segments = segments-eq t u r s ps qs ht hu e in
    (segments.0, join_rest-inj b'/' (r ∷ ps) (s ∷ qs) hps hqs segments.1)
