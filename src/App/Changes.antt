-- ===== src/App/Changes.antt =====
-- Every initializer and every disposal makes one abstract change.
use ai_developer_copilot_pla.Prelude.{
  ℕ, ◌≡◌, refl, sym, Option, none, some, length, inl, inr, ◌⊎◌, ==_iff, subst, Option-cases,
}
use mathlib.Core.Option
use ai_developer_copilot_pla.Exn.{Exn, Result, ok, raised, Result-cases}
use ai_developer_copilot_pla.Exec.{Exec, modify, pure, ◌>>=◌, ◌>>◌}
use ai_developer_copilot_pla.Config.{Settings, settings_of}
use ai_developer_copilot_pla.Process.{
  Process, Drivers, ClientSpec, open_client, close_client, get_settings,
}
use ai_developer_copilot_pla.Db.Engines.{
  session_maker, initialize_db, dispose_write, dispose_read, dispose_db,
}
use ai_developer_copilot_pla.Cache.Client.{initialize_redis, dispose_pool, dispose_redis}
use ai_developer_copilot_pla.Vector.Client.{initialize_qdrant, dispose_client, dispose_qdrant}
use ai_developer_copilot_pla.Storage.Client.{initialize_storage}
use ai_developer_copilot_pla.Llm.Client.{
  initialize_llm, dispose_adapter as dispose_llm_adapter, dispose_llm,
}
use ai_developer_copilot_pla.Embedding.Client.{
  initialize_embedding, dispose_adapter as dispose_embedding_adapter, dispose_embedding,
}
use ai_developer_copilot_pla.App.Slots.{
  Service, Disposable, service_of, initialize, dispose, slots, client_at, replace, Initialized,
  failed, installed, Disposed, absent, released, refused,
}

-- The four fields of `_DbState` agree: one engine stands behind both sessions.
abbrev pub IsWired : Process → Type 0
IsWired p =
    (p.engine_read ≡ p.engine_write)
    × (p.session_write ≡ Option.map session_maker p.engine_write)
    × (p.session_read ≡ Option.map session_maker p.engine_write)

-- An initializer that keeps the fields of `_DbState` in agreement.
abbrev pub Initializes : Drivers → Service → Process → Result (Unit {0}) × Process → Type 0
Initializes d s p end = Initialized d s p end × (IsWired p → IsWired end.1)

abbrev pub Disposes : Drivers → Service → Process → Result (Unit {0}) × Process → Type 0
Disposes d s p end = Disposed d s p end × (IsWired p → IsWired end.1)

-- What an initializer does with the client that it has constructed.
record Installs (s : Service) (f : Settings → ℕ → Process → Process) : Type 0 where
  slot :
      (settings : Settings) (id : ℕ) (p : Process)
      → slots (f settings id p) ≡ replace s (some id) (slots p)
  trace : (settings : Settings) (id : ℕ) (p : Process) → (f settings id p).trace ≡ p.trace
  wired : (settings : Settings) (id : ℕ) (p : Process) → IsWired p → IsWired (f settings id p)

pub map-id : (o : Option ℕ) → Option.map (λ c. c) o ≡ o
map-id none = refl
map-id (some c) = refl

module _ (d : Drivers) where
  settings_cases :
      (p : Process)
      → ((e : Exn) × (get_settings d p ≡ (raised e, p)))
        ⊎ ((s : Settings) × (get_settings d p ≡ (ok s, record p { settings_cache = some s })))
  settings_cases p = elim (Option-cases p.settings_cache) [
    | inl uncached ↦ elim (Result-cases (d.environment p.trace)) [
      | inl (fields, h) ↦ inr (settings_of fields.0 fields.1, rw (uncached, h))
      | inr (e, h) ↦ inl (e, rw (uncached, h))
    ]
    | inr (s, cached) ↦ inr (s, rw cached)
  ]

  -- The shape of an initializer.
  unfoldable pub initializer :
      (Settings → ClientSpec) → (Settings → ℕ → Process → Process) → Exec Process (Unit {0})
  initializer spec f = do
    settings ← get_settings d
    id ← open_client d (spec settings)
    modify (f settings id)

  -- The same where an adapter is made around the client first.
  unfoldable pub adapter_initializer :
      {A : Type 0}
      → (Settings → ClientSpec)
      → (Settings → ℕ → A)
      → (A → Process → Process)
      → Exec Process (Unit {0})
  adapter_initializer spec make f = do
    settings ← get_settings d
    adapter ← (do id ← open_client d (spec settings); pure (make settings id))
    modify (f adapter)

  adapter-Initializes :
      {A : Type 0} (s : Service) (spec : Settings → ClientSpec) (make : Settings → ℕ → A)
      (g : A → Process → Process)
      → Installs s (λ settings id. g (make settings id))
      → (p : Process) → Initializes d s p (adapter_initializer spec make g p)
  unfolding adapter_initializer
  adapter-Initializes s spec make g i p = elim (settings_cases p) [
    | inl (e, h) ↦ rw h (failed e refl refl refl, λ w. w)
    | inr (t, h) ↦ elim (Result-cases (d.construct p.trace (spec t))) [
      | inl (done, k) ↦
          rw (h, k)
            (
              installed (spec t) refl (i.slot t (length p.trace) _) (i.trace t (length p.trace) _),
              i.wired t (length p.trace) _,
            )
      | inr (e, k) ↦ rw (h, k) (failed e refl refl refl, λ w. w)
    ]
  ]

  pub initializer-adapter_initializer :
      (spec : Settings → ClientSpec) (f : Settings → ℕ → Process → Process) (p : Process)
      → initializer spec f p ≡ adapter_initializer spec f (λ install. install) p
  unfolding initializer adapter_initializer
  initializer-adapter_initializer spec f p = elim (settings_cases p) [
    | inl (e, h) ↦ rw h
    | inr (t, h) ↦ elim (Result-cases (d.construct p.trace (spec t))) [
      | inl (done, k) ↦ rw (h, k)
      | inr (e, k) ↦ rw (h, k)
    ]
  ]

  initializer-Initializes :
      (s : Service) (spec : Settings → ClientSpec) (f : Settings → ℕ → Process → Process)
      → Installs s f
      → (p : Process) → Initializes d s p (initializer spec f p)
  initializer-Initializes s spec f i p =
      subst (Initializes d s p) (sym (initializer-adapter_initializer spec f p))
        (adapter-Initializes s spec f (λ install. install) i p)

  database-Installs : Installs Service.database (λ settings id p. record p {
    engine_write = some id;
    engine_read = some id;
    session_write = some (session_maker id);
    session_read = some (session_maker id);
  })
  database-Installs = record {
    slot = λ t id p. refl;
    trace = λ t id p. refl;
    wired = λ t id p w. (refl, refl, refl);
  }

  pub initialize-Initializes : (s : Service) (p : Process) → Initializes d s p (initialize d s p)
  unfolding initialize_db initialize_redis initialize_qdrant initialize_storage initialize_llm
      initialize_embedding initializer adapter_initializer
  initialize-Initializes Service.database p =
      initializer-Initializes Service.database _ _ database-Installs p
  initialize-Initializes Service.redis p =
      initializer-Initializes Service.redis _ _
        (record { slot = λ t id p. refl; trace = λ t id p. refl; wired = λ t id p w. w }) p
  initialize-Initializes Service.qdrant p =
      initializer-Initializes Service.qdrant _ _
        (record { slot = λ t id p. refl; trace = λ t id p. refl; wired = λ t id p w. w }) p
  initialize-Initializes Service.storage p =
      initializer-Initializes Service.storage _ _
        (record { slot = λ t id p. refl; trace = λ t id p. refl; wired = λ t id p w. w }) p
  initialize-Initializes Service.llm p =
      adapter-Initializes Service.llm _ _ _
        (record { slot = λ t id p. refl; trace = λ t id p. refl; wired = λ t id p w. w }) p
  initialize-Initializes Service.embedding p =
      adapter-Initializes Service.embedding _ _ _
        (record { slot = λ t id p. refl; trace = λ t id p. refl; wired = λ t id p w. w }) p

  -- The shape of a disposal of one client.
  disposal-Disposes :
      {A : Type 0} (s : Service) (client : A → ℕ) (give_up : Process → Process)
      (body : Option A → Exec Process (Unit {0}))
      → ((q : Process) → client_at s (slots q) ≡ none → Disposes d s q (body none q))
      → ((a : A) (q : Process) → body (some a) q ≡ (do close_client d (client a); modify give_up) q)
      → ((q : Process) → slots (give_up q) ≡ replace s none (slots q))
      → ((q : Process) → (give_up q).trace ≡ q.trace)
      → ((q : Process) → IsWired q → IsWired (give_up q))
      → (o : Option A) (p : Process) → client_at s (slots p) ≡ Option.map client o
      → Disposes d s p (body o p)
  disposal-Disposes s client give_up body none_there present slot trace wired none p h =
      none_there p h
  disposal-Disposes s client give_up body none_there present slot trace wired (some a) p h =
      elim (Result-cases (d.close p.trace (client a))) [
        | inl (done, k) ↦
            rw (present a p, k) (released (client a) h refl (slot _) (trace _), wired _)
        | inr (e, k) ↦ rw (present a p, k) (refused (client a) e h k refl refl refl, λ w. w)
      ]

  abbrev pub no_engine : Process → Process
  no_engine p = record p {
    engine_write = none;
    engine_read = none;
    session_write = none;
    session_read = none;
  }

  abbrev pub dispose_engines : Option ℕ → Option ℕ → Exec Process (Unit {0})
  dispose_engines read write = do dispose_write d write; dispose_read d read write; modify no_engine

  pub dispose_one_engine :
      (engine : ℕ) (p : Process)
      → dispose_engines (some engine) (some engine) p
        ≡ (do close_client d engine; modify no_engine) p
  dispose_one_engine engine p = elim (Result-cases (d.close p.trace engine)) [
    | inl (done, k) ↦ rw (k, (==_iff engine engine).1 refl)
    | inr (e, k) ↦ rw k
  ]

  engine-Disposes :
      (p : Process)
      → Disposes d Service.database p (dispose_engines p.engine_write p.engine_write p)
  engine-Disposes p =
      disposal-Disposes Service.database (λ c. c) no_engine (λ o. dispose_engines o o)
        (λ q e. (absent e refl (rw e) refl, λ w. (refl, refl, refl))) dispose_one_engine (λ q. refl)
        (λ q. refl) (λ q w. (refl, refl, refl)) p.engine_write p (sym (map-id p.engine_write))

  pub dispose-Disposes :
      (s : Disposable) (p : Process) → IsWired p → Disposes d (service_of s) p (dispose d s p)
  unfolding dispose_db dispose_redis dispose_qdrant dispose_llm dispose_embedding
  dispose-Disposes Disposable.database p w =
      subst (λ read. Disposes d Service.database p (dispose_engines read p.engine_write p))
        (sym w.0) (engine-Disposes p)
  dispose-Disposes Disposable.redis p w =
      disposal-Disposes Service.redis (λ c. c) _ (dispose_pool d)
        (λ q e. (absent e refl refl refl, λ w. w)) (λ a q. refl) (λ q. refl) (λ q. refl) (λ q w. w)
        p.redis_pool p (sym (map-id p.redis_pool))
  dispose-Disposes Disposable.qdrant p w =
      disposal-Disposes Service.qdrant (λ c. c) _ (dispose_client d)
        (λ q e. (absent e refl refl refl, λ w. w)) (λ a q. refl) (λ q. refl) (λ q. refl) (λ q w. w)
        p.qdrant_client p (sym (map-id p.qdrant_client))
  dispose-Disposes Disposable.llm p w =
      disposal-Disposes Service.llm (λ a. a.client) _ (dispose_llm_adapter d)
        (λ q e. (absent e refl refl refl, λ w. w)) (λ a q. refl) (λ q. refl) (λ q. refl) (λ q w. w)
        p.llm_adapter p refl
  dispose-Disposes Disposable.embedding p w =
      disposal-Disposes Service.embedding (λ a. a.client) _ (dispose_embedding_adapter d)
        (λ q e. (absent e refl refl refl, λ w. w)) (λ a q. refl) (λ q. refl) (λ q. refl) (λ q w. w)
        p.embedding_adapter p refl
