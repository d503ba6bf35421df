-- ===== src/App/Failures.antt =====
-- What a failing startup and a failing shutdown leave open.
use ai_developer_copilot_pla.Prelude.{
  ℕ, ◌≡◌, refl, ap, ◌∙◌, List, [], ◌∷◌, ◌++◌, some, arith, length, inl, inr,
}
use ai_developer_copilot_pla.Exn.{Exn, Result, ok, raised, Result-cases}
use ai_developer_copilot_pla.Exec.{Exec, resume, ◌>>=◌}
use ai_developer_copilot_pla.Config.{Settings}
use ai_developer_copilot_pla.Process.{
  Process, Drivers, ClientSpec, Event, opened, close_called, open_client, get_settings,
}
use ai_developer_copilot_pla.Db.Engines.{initialize_db}
use ai_developer_copilot_pla.Cache.Client.{initialize_redis}
use ai_developer_copilot_pla.Vector.Client.{initialize_qdrant}
use ai_developer_copilot_pla.Storage.Client.{initialize_storage}
use ai_developer_copilot_pla.Llm.Client.{initialize_llm}
use ai_developer_copilot_pla.Embedding.Client.{initialize_embedding, dispose_embedding}
use ai_developer_copilot_pla.Embedding.Adapter.{EmbeddingAdapter}
use ai_developer_copilot_pla.App.Lifespan.{startup, shutdown, lifespan}

-- The clients that were closed, in order.
abbrev pub closed : List Event → List ℕ
closed [] = []
closed (opened id spec ∷ events) = closed events
closed (close_called id ∷ events) = id ∷ closed events

closed-opened :
    (events : List Event) (id : ℕ) (spec : ClientSpec)
    → closed (events ++ opened id spec ∷ []) ≡ closed events
closed-opened [] id spec = refl
closed-opened (opened i c ∷ events) id spec = closed-opened events id spec
closed-opened (close_called i ∷ events) id spec = ap (◌∷◌ i) (closed-opened events id spec)

-- `m` closes no client.
record ClosesNone {A : Type 0} (m : Exec Process A) : Type 0 where
  at : (p : Process) → closed (m p).1.trace ≡ closed p.trace

module _ {A B : Type 0} where
  resume-closed :
      (r : Result A) (p : Process) (f : A → Exec Process B)
      → ((a : A) → ClosesNone (f a))
      → closed (resume r p f).1.trace ≡ closed p.trace
  resume-closed (ok a) p f h = (h a).at p
  resume-closed (raised e) p f h = refl

  ClosesNone-bind :
      (m : Exec Process A) (f : A → Exec Process B)
      → ClosesNone m
      → ((a : A) → ClosesNone (f a))
      → ClosesNone (m >>= f)
  ClosesNone-bind m f hm hf = record { at = λ p. resume-closed (m p).0 (m p).1 f hf ∙ hm.at p }

module _ (d : Drivers) where
  open_client-ClosesNone : (spec : ClientSpec) → ClosesNone (open_client d spec)
  open_client-ClosesNone spec = record {
    at = λ p. elim (Result-cases (d.construct p.trace spec)) [
      | inl (done, h) ↦ rw h (closed-opened p.trace (length p.trace) spec)
      | inr (e, h) ↦ rw h
    ];
  }

  get_settings-ClosesNone : ClosesNone (get_settings d)
  get_settings-ClosesNone = record { at = λ p. ground arith }

  -- The shape of an initializer.
  initializer-ClosesNone :
      {A : Type 0} (spec : Settings → ClientSpec) (make : Settings → ℕ → Exec Process A)
      → ((s : Settings) (id : ℕ) → ClosesNone (make s id))
      → ClosesNone (get_settings d >>= λ s. open_client d (spec s) >>= make s)
  initializer-ClosesNone spec make h =
      ClosesNone-bind (get_settings d) _ get_settings-ClosesNone λ s.
        ClosesNone-bind (open_client d (spec s)) (make s) (open_client-ClosesNone (spec s)) (h s)

  initialize_db-ClosesNone : ClosesNone (initialize_db d)
  unfolding initialize_db
  initialize_db-ClosesNone = initializer-ClosesNone _ _ (λ s id. record { at = λ p. refl })

  initialize_redis-ClosesNone : ClosesNone (initialize_redis d)
  unfolding initialize_redis
  initialize_redis-ClosesNone = initializer-ClosesNone _ _ (λ s id. record { at = λ p. refl })

  initialize_qdrant-ClosesNone : ClosesNone (initialize_qdrant d)
  unfolding initialize_qdrant
  initialize_qdrant-ClosesNone = initializer-ClosesNone _ _ (λ s id. record { at = λ p. refl })

  initialize_storage-ClosesNone : ClosesNone (initialize_storage d)
  unfolding initialize_storage
  initialize_storage-ClosesNone = initializer-ClosesNone _ _ (λ s id. record { at = λ p. refl })

  initialize_llm-ClosesNone : ClosesNone (initialize_llm d)
  unfolding initialize_llm
  initialize_llm-ClosesNone = ClosesNone-bind (get_settings d) _ get_settings-ClosesNone λ s.
      ClosesNone-bind _ _
        (ClosesNone-bind _ _ (open_client-ClosesNone _) (λ id. record { at = λ p. refl }))
        λ adapter. record { at = λ p. refl }

  initialize_embedding-ClosesNone : ClosesNone (initialize_embedding d)
  unfolding initialize_embedding
  initialize_embedding-ClosesNone = ClosesNone-bind (get_settings d) _ get_settings-ClosesNone λ s.
      ClosesNone-bind _ _
        (ClosesNone-bind _ _ (open_client-ClosesNone _) (λ id. record { at = λ p. refl }))
        λ adapter. record { at = λ p. refl }

  then-ClosesNone :
      {A B : Type 0} (m : Exec Process A) (n : Exec Process B)
      → ClosesNone m
      → ClosesNone n
      → ClosesNone (m >>= λ _. n)
  then-ClosesNone m n hm hn = ClosesNone-bind m (λ _. n) hm (λ _. hn)

  startup-ClosesNone : ClosesNone (startup d)
  unfolding startup
  startup-ClosesNone = then-ClosesNone _ _ initialize_db-ClosesNone (
      then-ClosesNone _ _ initialize_redis-ClosesNone (
        then-ClosesNone _ _ initialize_qdrant-ClosesNone (
          then-ClosesNone _ _ initialize_storage-ClosesNone
            (then-ClosesNone _ _ initialize_llm-ClosesNone initialize_embedding-ClosesNone))))

  -- If the startup raises, from whatever state and with whatever drivers, the lifespan raises the
  -- same exception at once: the application does not run, and no client is closed, not even those
  -- that the startup has constructed before.
  pub lifespan_failed_startup :
      (application : Exec Process (Unit {0})) (p : Process) (e : Exn)
      → (startup d p).0 ≡ raised e
      → (lifespan d application p ≡ (raised e, (startup d p).1))
        × (closed (lifespan d application p).1.trace ≡ closed p.trace)
  unfolding lifespan
  lifespan_failed_startup application p e h = (rw h, rw h (startup-ClosesNone.at p))

  -- If closing the embedding client raises, the shutdown raises the same exception at once: every
  -- other client, and the embedding adapter too, stays as it was, and nothing else is closed.
  shutdown_failed_close :
      (p : Process) (adapter : EmbeddingAdapter) (e : Exn)
      → p.embedding_adapter ≡ some adapter
      → d.close p.trace adapter.client ≡ raised e
      → shutdown d p ≡ (raised e, record p { trace = p.trace ++ close_called adapter.client ∷ [] })
  unfolding shutdown dispose_embedding
  shutdown_failed_close p adapter e h failed = ground arith
