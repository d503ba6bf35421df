-- ===== src/App/Orderly.antt =====
-- The lifespan as calls of initializers and disposals.
use ai_developer_copilot_pla.Prelude.{
  ℕ, ◌≡◌, refl, ◌∙◌, sym, subst, All, length, List, [], ◌∷◌, Option, none, some, Bool, true, false,
  ◌&&◌, not, ◌==◌, arith, inl, inr, Reach, here, next, Reach-trans,
}
use ai_developer_copilot_pla.Exn.{Result-cases}
use ai_developer_copilot_pla.Exec.{Exec, ◌>>◌}
use ai_developer_copilot_pla.Process.{Process, fresh, Drivers}
use ai_developer_copilot_pla.App.Slots.{
  Service, Disposable, Slots, initialize, dispose, slots, client_at, replace, failed, installed,
}
use ai_developer_copilot_pla.App.Changes.{initialize-Initializes}
use ai_developer_copilot_pla.App.Leaks.{
  Closes, Turn, first, gives_up, IsAccounted, Reached_balanced,
}
use ai_developer_copilot_pla.App.Lifespan.{startup, shutdown, lifespan}

-- The place of a service in the startup.
abbrev rank : Service → ℕ
rank Service.database = 0
rank Service.redis = 1
rank Service.qdrant = 2
rank Service.storage = 3
rank Service.llm = 4
rank Service.embedding = 5

client_at-replace :
    (s t : Service) (x : Option ℕ) (v : Slots)
    → (rank s == rank t) ≡ false
    → client_at t (replace s x v) ≡ client_at t v
client_at-replace s t x v h = ground arith

-- The services have no client.
abbrev Empty : Slots → List Service → Type 0
Empty v = All (λ s. client_at s v ≡ none)

abbrev free : Service → List Service → Bool
free s [] = true
free s (t ∷ services) = not (rank s == rank t) && free s services

-- No service twice.
abbrev distinct : Service → List Service → Bool
distinct s [] = true
distinct s (t ∷ services) = free s (t ∷ services) && distinct t services

still-Empty :
    (s : Service) (services : List Service) (x : Option ℕ) (v : Slots)
    → free s services ≡ true
    → Empty v services
    → Empty (replace s x v) services
still-Empty s [] x v h e = tt
still-Empty s (t ∷ services) x v h (e, rest) = (
  client_at-replace s t x v (ground (arith, h)) ∙ e,
  still-Empty s services x v (ground (arith, h)) rest,
)

module _ (d : Drivers) where
  initialize_all : Service → List Service → Exec Process (Unit {0})
  initialize_all s [] = initialize d s
  initialize_all s (t ∷ services) = do initialize d s; initialize_all t services

  dispose_all : Disposable → List Disposable → Exec Process (Unit {0})
  dispose_all s [] = dispose d s
  dispose_all s (t ∷ services) = do dispose d s; dispose_all t services

  initialize_all-Turn :
      (s : Service) (services : List Service) (p : Process)
      → distinct s services ≡ true
      → client_at s (slots p) ≡ none
      → Empty (slots p) services
      → Reach (Turn d) p (initialize_all s services p).1
  unfolding initialize_all
  initialize_all-Turn s [] p h e es = next here (first s e refl)
  initialize_all-Turn s (t ∷ services) p h e es = elim (initialize-Initializes d s p).0 [
    | failed x r v trace ↦ rw r (next here (first s e refl))
    | installed spec r v trace ↦
        let empty : Empty (slots (initialize d s p).1) (t ∷ services) =
          subst (λ w. Empty w (t ∷ services)) (sym v)
            (still-Empty s (t ∷ services) (some (length p.trace)) (slots p) (ground (arith, h))
              es) in
        rw r (
          Reach-trans (next here (first s e refl)) (
            initialize_all-Turn t services (initialize d s p).1 (ground (arith, h)) empty.0
              empty.1))
  ]

  dispose_all-Turn :
      (s : Disposable) (services : List Disposable) (p : Process)
      → Reach (Turn d) p (dispose_all s services p).1
  unfolding dispose_all
  dispose_all-Turn s [] p = next here (gives_up s refl)
  dispose_all-Turn s (t ∷ services) p = elim (Result-cases (dispose d s p).0) [
    | inl (done, r) ↦
        rw r (
          Reach-trans (next here (gives_up s refl)) (dispose_all-Turn t services (dispose d s p).1))
    | inr (x, r) ↦ rw r (next here (gives_up s refl))
  ]

  startup-Turn : Reach (Turn d) fresh (startup d fresh).1
  unfolding startup initialize_all
  startup-Turn =
      initialize_all-Turn Service.database
        (Service.redis ∷ Service.qdrant ∷ Service.storage ∷ Service.llm ∷ Service.embedding ∷ [])
        fresh refl refl (refl, (refl, (refl, (refl, (refl, tt)))))

  shutdown-Turn : (p : Process) → Reach (Turn d) p (shutdown d p).1
  unfolding shutdown dispose_all
  shutdown-Turn =
      dispose_all-Turn Disposable.embedding
        (Disposable.llm ∷ Disposable.qdrant ∷ Disposable.redis ∷ Disposable.database ∷ [])

  lifespan-Turn :
      (application : Exec Process (Unit {0}))
      → ((p : Process) → (application p).1 ≡ p)
      → Reach (Turn d) fresh (lifespan d application fresh).1
  unfolding lifespan
  lifespan-Turn application leaves = elim (Result-cases (startup d fresh).0) [
    | inr (x, r) ↦ rw r (startup-Turn)
    | inl (done, r) ↦ elim (Result-cases (application (startup d fresh).1).0) [
      | inr (y, k) ↦ rw (r, k, leaves (startup d fresh).1) startup-Turn
      | inl (fine, k) ↦
          rw (r, k, leaves (startup d fresh).1)
            (Reach-trans startup-Turn (shutdown-Turn (startup d fresh).1))
    ]
  ]

  -- If closing never raises, and the application leaves the clients alone: whatever the settings and
  -- the constructors do, and however the application ends, behind the lifespan of a fresh process
  -- every client that was constructed is either held by exactly one service or was closed exactly
  -- once.
  lifespan_balanced :
      Closes d
      → (application : Exec Process (Unit {0})) → ((p : Process) → (application p).1 ≡ p)
      → (id : ℕ) → IsAccounted id (lifespan d application fresh).1
  lifespan_balanced c application leaves =
      Reached_balanced d c (lifespan d application fresh).1 (lifespan-Turn application leaves)
