-- ===== src/Api/Routes.antt =====
-- The routes of the application that `create_app` of backend/app/main.py makes.
use ai_developer_copilot_pla.Prelude.{
  ℕ, ◌≡◌, ◌≢◌, refl, ◌∙◌, sym, ap, [], ◌∷◌, ◌++◌, Option, none, some, Option-cases, Bool,
  Bool-cases, false, if◌then◌else◌, inl, inr, arith,
}
use ai_developer_copilot_pla.Text.{
  Text, codes, eq_text, eq_text_refl, eq_text_sound, eq_text_ne, strip_prefix,
}
use ai_developer_copilot_pla.Exn.{ok}
use ai_developer_copilot_pla.Config.{Settings}
use ai_developer_copilot_pla.Process.{Process, Drivers, get_settings}
use ai_developer_copilot_pla.Api.Fastapi.{Fastapi, IsFastapi, IsPrefix, behind}
use ai_developer_copilot_pla.Api.Router.{health_operation, api_router}
use ai_developer_copilot_pla.App.Create.{application_of, create_app}

strip_prefix-append : (p s : Text) → strip_prefix p (p ++ s) ≡ some s
strip_prefix-append [] s = refl
strip_prefix-append (c ∷ p) s = ground (arith, strip_prefix-append p s)

strip_prefix_inv : (p q s : Text) → strip_prefix p q ≡ some s → q ≡ p ++ s
strip_prefix_inv [] q s h = cc
strip_prefix_inv (c ∷ p) [] s h = cc
strip_prefix_inv (c ∷ p) (d ∷ q) s h = ground (arith, strip_prefix_inv p q s)

-- The last character, or the given one.
abbrev final : ℕ → Text → ℕ
final d [] = d
final d (c ∷ s) = final c s

final-append : (d : ℕ) (s : Text) (c : ℕ) (t : Text) → final d (s ++ c ∷ t) ≡ final c t
final-append d [] c t = refl
final-append d (e ∷ s) c t = final-append e s c t

abbrev pub health_path : Text → Text
health_path prefix = prefix ++ codes "/health"

ends_otherwise : (prefix u : Text) → final 0 u ≢ b'h' → health_path prefix ≢ u
ends_otherwise prefix u ne e =
    ne (ap (final 0) (sym e) ∙ final-append 0 prefix b'/' (codes "health"))

-- Behind the prefix, only the path of the endpoint has one.
module _ {H : Type 0} (h : H) where
  abbrev at_health : Text → Text → Option H
  at_health path q = if eq_text q path then some h else none

  behind_prefix :
      (prefix q : Text)
      → behind (strip_prefix prefix q) (at_health (codes "/health"))
        ≡ at_health (health_path prefix) q
  behind_prefix prefix q = elim (Bool-cases (eq_text q (health_path prefix))) [
    | inl same ↦
        let e = eq_text_sound q (health_path prefix) same in
        let stripped : strip_prefix prefix q ≡ some (codes "/health") =
          ap (strip_prefix prefix) e ∙ strip_prefix-append prefix (codes "/health") in
        rw (same, stripped)
    | inr differ ↦ elim (Option-cases (strip_prefix prefix q)) [
      | inl outside ↦ rw (differ, outside)
      | inr (rest, inside) ↦
          let ne : rest ≢ codes "/health" = λ e.
            cc (
              differ,
              eq_text_refl (health_path prefix),
              strip_prefix_inv prefix q rest inside,
              e,
            ) in
          rw (differ, inside, eq_text_ne rest (codes "/health") ne)
    ]
  ]

behind_same :
    {H : Type 0} (o : Option Text) (g k : Text → Option H)
    → ((q : Text) → g q ≡ k q)
    → behind o g ≡ behind o k
behind_same none g k same = refl
behind_same (some rest) g k same = same rest

module _ {R A H : Type 0} (f : Fastapi R A H) (find : R → Text → Option H) (page : A → Text → Bool)
    (endpoint : A → Text → Option H) (l : IsFastapi f find page endpoint) (h : H) where
  find-api_router : (q : Text) → find (api_router f h) q ≡ at_health h (codes "/health") q
  find-api_router q =
      l.included (f.new_router []) _ q
      ∙ rw (l.empty [] q) (
          l.decorated (f.new_router (codes "Health" ∷ [])) health_operation h q (omega arith)
          ∙ rw (l.empty (codes "Health" ∷ []) q))

  unshadowed :
      (a : A) (prefix q : Text)
      → page a (health_path prefix) ≡ false
      → (if page a q then none else behind (strip_prefix prefix q) (find (api_router f h)))
        ≡ at_health h (health_path prefix) q
  unshadowed a prefix q free = elim (Bool-cases (page a q)) [
    | inl hidden ↦
        rw (hidden, eq_text_ne q (health_path prefix) (λ e. cc (hidden, free, ap (page a) e)))
    | inr open_path ↦ rw open_path (
        behind_same (strip_prefix prefix q) _ (at_health h (codes "/health")) find-api_router
        ∙ behind_prefix h prefix q)
  ]

  -- Over FastAPI as it documents its routes: if the settings can be read and their prefix is one that
  -- FastAPI takes, `create_app` returns an application. The only path with an endpoint is `/health`
  -- behind that prefix, which none of the pages for the documentation hides, and the endpoint is the
  -- health check.
  pub create_app_routes :
      (d : Drivers) (p q : Process) (s : Settings)
      → get_settings d p ≡ (ok s, q)
      → IsPrefix s.api_v1_prefix
      → (b : A) × (create_app f h d p ≡ (ok b, q))
        × ((path : Text)
            → endpoint b path
              ≡ (if eq_text path (health_path s.api_v1_prefix) then some h else none))
  unfolding create_app
  create_app_routes d p q s read prefixed =
      let a = f.fastapi (application_of s) in
      let (b, accepted, routes) = l.mounted a (api_router f h) s.api_v1_prefix prefixed in
      let free : page a (health_path s.api_v1_prefix) ≡ false = l.pages (application_of s) _ (
        ends_otherwise s.api_v1_prefix (codes "/api/docs") (omega arith),
        (
          ends_otherwise s.api_v1_prefix (codes "/docs/oauth2-redirect") (omega arith),
          (
            ends_otherwise s.api_v1_prefix (codes "/api/redoc") (omega arith),
            (ends_otherwise s.api_v1_prefix (codes "/api/openapi.json") (omega arith), tt),
          ),
        ),
      ) in
      (
        b,
        rw (read, accepted),
        λ path.
            routes path
            ∙ rw (l.no_endpoint (application_of s) path) (unshadowed a s.api_v1_prefix path free),
      )
