-- ===== src/Api/Fastapi.antt =====
-- What the backend uses of FastAPI, which is a parameter: the calls, and what FastAPI documents of
-- the routes that they make.
use ai_developer_copilot_pla.Prelude.{
  ℕ, ◌≡◌, ◌≢◌, List, [], ◌∷◌, ◌++◌, Option, none, some, Bool, false, if◌then◌else◌, All,
}
use ai_developer_copilot_pla.Text.{Text, codes, Lacks, eq_text, strip_prefix}
use ai_developer_copilot_pla.Exn.{Result, ok}

-- The arguments of `FastAPI`; the lifespan is always the one of backend/app/main.py.
pub record Application : Type 0 where
  pub title : Text
  pub version : Text
  pub docs_url : Text
  pub redoc_url : Text
  pub openapi_url : Text

-- The arguments of `router.get`; the model of the response is that of the endpoint.
pub record Operation : Type 0 where
  pub path : Text
  pub summary : Text
  pub description : Text

-- `APIRouter(tags=…)`, `router.get(…)` over an endpoint, `include_router` of a router,
-- `FastAPI(…)`, and `include_router(…, prefix=…)` of an application, which looks at the prefix.
pub record Fastapi (R A H : Type 0) : Type 0 where
  pub new_router : List Text → R
  pub get : R → Operation → H → R
  pub include_router : R → R → R
  pub fastapi : Application → A
  pub mount : A → R → Text → Result A

-- No prefix, or one that begins with a slash, does not end with one, and has no path parameter.
pub data IsPrefix : Text → Type 0 where
  no_prefix : IsPrefix []
  below : (s : Text) (c : ℕ) → Lacks b'{' (s ++ c ∷ []) → c ≢ b'/' → IsPrefix (b'/' ∷ s ++ c ∷ [])

module _ {A : Type 0} where
  -- The first route that matches.
  abbrev pub or_else : Option A → Option A → Option A
  or_else none next = next
  or_else (some x) next = some x

  abbrev pub behind : Option Text → (Text → Option A) → Option A
  behind none g = none
  behind (some rest) g = g rest

-- The pages that an application has by itself.
abbrev pub own_urls : Application → List Text
own_urls x = x.docs_url ∷ codes "/docs/oauth2-redirect" ∷ x.redoc_url ∷ x.openapi_url ∷ []

-- `find` and `endpoint` tell which endpoint a router and an application call on a `GET` of a path,
-- `page` whether the application answers with a page of its own. A route that stands first is taken.
pub record IsFastapi {R A H : Type 0} (f : Fastapi R A H) (find : R → Text → Option H)
    (page : A → Text → Bool) (endpoint : A → Text → Option H) : Type 0 where
  pub empty : (tags : List Text) (q : Text) → find (f.new_router tags) q ≡ none
  pub decorated :
      (r : R) (o : Operation) (h : H) (q : Text)
      → Lacks b'{' o.path
      → find (f.get r o h) q ≡ or_else (find r q) (if eq_text q o.path then some h else none)
  pub included :
      (r t : R) (q : Text) → find (f.include_router r t) q ≡ or_else (find r q) (find t q)
  pub pages :
      (x : Application) (q : Text) → All (λ u. q ≢ u) (own_urls x) → page (f.fastapi x) q ≡ false
  pub no_endpoint : (x : Application) (q : Text) → endpoint (f.fastapi x) q ≡ none
  pub mounted :
      (a : A) (r : R) (prefix : Text)
      → IsPrefix prefix
      → (b : A) × (f.mount a r prefix ≡ ok b)
        × ((q : Text)
            → endpoint b q
              ≡ or_else
                  (endpoint a q)
                  (if page a q then none else behind (strip_prefix prefix q) (find r)))
