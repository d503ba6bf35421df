-- ===== src/App/Refinement.antt =====
-- The initializers and disposals refine one abstract initializer and one abstract disposal.
use ai_developer_copilot_pla.Prelude.{
  ℕ, ◌≡◌, refl, ◌∙◌, sym, ap, subst, List, [], ◌∷◌, ◌++◌, Option, none, some, Option-cases, length,
  inl, inr,
}
use mathlib.Core.Option
use ai_developer_copilot_pla.Exn.{Result, ok, raised, Result-cases}
use ai_developer_copilot_pla.Exec.{Exec, modify, ◌>>◌}
use ai_developer_copilot_pla.Config.{Settings, Required, Tunables, settings_of}
use ai_developer_copilot_pla.Process.{Process, Drivers, Event, opened, close_called, close_client}
use ai_developer_copilot_pla.Db.Engines.{initialize_db, dispose_db}
use ai_developer_copilot_pla.Cache.Client.{initialize_redis, dispose_pool, dispose_redis}
use ai_developer_copilot_pla.Vector.Client.{initialize_qdrant, dispose_client, dispose_qdrant}
use ai_developer_copilot_pla.Storage.Client.{initialize_storage}
use ai_developer_copilot_pla.Llm.Client.{
  initialize_llm, dispose_adapter as dispose_llm_adapter, dispose_llm,
}
use ai_developer_copilot_pla.Embedding.Client.{
  initialize_embedding, dispose_adapter as dispose_embedding_adapter, dispose_embedding,
}
use ai_developer_copilot_pla.App.Slots.{
  Service, Disposable, Slots, initialize, dispose, service_of, slots, client_at, replace,
}
use ai_developer_copilot_pla.App.Effects.{spec_of, llm_of, embedding_of, install, give_up}
use ai_developer_copilot_pla.App.Changes.{
  IsWired, adapter_initializer, initializer, initializer-adapter_initializer, dispose_engines,
  dispose_one_engine, map-id, initialize-Initializes, dispose-Disposes,
}

-- What matters of a process: the cached settings, the client of each service, and what was
-- constructed and closed. The adapters and the four fields of `_DbState` are forgotten.
pub record View : Type 0 where
  pub cache : Option Settings
  pub held : Slots
  pub trace : List Event

abbrev pub view : Process → View
view p = record { cache = p.settings_cache; held = slots p; trace = p.trace }

abbrev pub viewed : Result (Unit {0}) × Process → Result (Unit {0}) × View
viewed end = (end.0, view end.1)

abbrev read : Result (Required × Tunables) → Result Settings
read (ok fields) = ok (settings_of fields.0 fields.1)
read (raised e) = raised e

module _ (d : Drivers) where
  abbrev reading : Option Settings → List Event → Result Settings
  reading (some s) trace = ok s
  reading none trace = read (d.environment trace)

  abbrev constructing : Service → Settings → Result (Unit {0}) → View → Result (Unit {0}) × View
  constructing k s (ok done) v = (
    ok tt,
    record v {
      held = replace k (some (length v.trace)) v.held;
      trace = v.trace ++ opened (length v.trace) (spec_of s k) ∷ [];
    },
  )
  constructing k s (raised e) v = (raised e, v)

  abbrev with_settings : Service → Result Settings → View → Result (Unit {0}) × View
  with_settings k (ok s) v =
      constructing k s (d.construct v.trace (spec_of s k)) (record v { cache = some s })
  with_settings k (raised e) v = (raised e, v)

  -- Any initializer: it reads the settings unless they are cached, and caches them; it constructs the
  -- client of its service from them, and the service gets that client. The first exception ends it.
  abbrev pub abstract_initialize : Service → View → Result (Unit {0}) × View
  abstract_initialize k v = with_settings k (reading v.cache v.trace) v

  abbrev closing : Service → ℕ → Result (Unit {0}) → View → Result (Unit {0}) × View
  closing k c (ok done) v =
      (ok tt, record v { held = replace k none v.held; trace = v.trace ++ close_called c ∷ [] })
  closing k c (raised e) v = (raised e, record v { trace = v.trace ++ close_called c ∷ [] })

  abbrev close_held : Service → Option ℕ → View → Result (Unit {0}) × View
  close_held k none v = (ok tt, v)
  close_held k (some c) v = closing k c (d.close v.trace c) v

  -- Any disposal: without a client it does nothing; otherwise it closes the client once, and the
  -- service gives it up if that returns, and keeps it if that raises.
  abbrev pub abstract_dispose : Service → View → Result (Unit {0}) × View
  abstract_dispose k v = close_held k (client_at k v.held) v

  adapter_refines :
      {A : Type 0} (k : Service) (make : Settings → ℕ → A) (g : A → Process → Process)
      → ((s : Settings) (id : ℕ) (q : Process) → g (make s id) q ≡ install k s id q)
      → ((s : Settings) (id : ℕ) (q : Process)
          → view (install k s id q) ≡ record (view q) { held = replace k (some id) (slots q) })
      → (p : Process)
      → viewed (adapter_initializer d (λ s. spec_of s k) make g p) ≡ abstract_initialize k (view p)
  unfolding adapter_initializer
  adapter_refines k make g same seen p = elim (Option-cases p.settings_cache) [
    | inl uncached ↦ elim (Result-cases (d.environment p.trace)) [
      | inl (fields, x) ↦
          let s = settings_of fields.0 fields.1 in
          elim (Result-cases (d.construct p.trace (spec_of s k))) [
            | inl (done, y) ↦ rw (uncached, x, y, same s (length p.trace), seen s (length p.trace))
            | inr (e, y) ↦ rw (uncached, x, y)
          ]
      | inr (e, x) ↦ rw (uncached, x)
    ]
    | inr (s, cached) ↦ elim (Result-cases (d.construct p.trace (spec_of s k))) [
      | inl (done, y) ↦ rw (cached, y, same s (length p.trace), seen s (length p.trace))
      | inr (e, y) ↦ rw (cached, y)
    ]
  ]

  initializer_refines :
      (k : Service)
      → ((s : Settings) (id : ℕ) (q : Process)
          → view (install k s id q) ≡ record (view q) { held = replace k (some id) (slots q) })
      → (p : Process)
      → viewed (initializer d (λ s. spec_of s k) (install k) p) ≡ abstract_initialize k (view p)
  initializer_refines k seen p =
      ap viewed (initializer-adapter_initializer d (λ s. spec_of s k) (install k) p)
      ∙ adapter_refines k (install k) (λ f. f) (λ s id q. refl) seen p

  pub initialize_refines :
      (k : Service) (p : Process) → viewed (initialize d k p) ≡ abstract_initialize k (view p)
  unfolding initialize_db initialize_redis initialize_qdrant initialize_storage initialize_llm
      initialize_embedding initializer adapter_initializer
  initialize_refines Service.database = initializer_refines Service.database (λ s id q. refl)
  initialize_refines Service.redis = initializer_refines Service.redis (λ s id q. refl)
  initialize_refines Service.qdrant = initializer_refines Service.qdrant (λ s id q. refl)
  initialize_refines Service.storage = initializer_refines Service.storage (λ s id q. refl)
  initialize_refines Service.llm =
      adapter_refines Service.llm llm_of _ (λ s id q. refl) (λ s id q. refl)
  initialize_refines Service.embedding =
      adapter_refines Service.embedding embedding_of _ (λ s id q. refl) (λ s id q. refl)

  disposal_refines :
      {A : Type 0} (k : Disposable) (client : A → ℕ) (body : Option A → Exec Process (Unit {0}))
      → ((q : Process)
          → client_at (service_of k) (slots q) ≡ none
          → viewed (body none q) ≡ (ok tt, view q))
      → ((a : A) (q : Process)
          → body (some a) q ≡ (do close_client d (client a); modify (give_up k)) q)
      → ((q : Process)
          → view (give_up k q) ≡ record (view q) { held = replace (service_of k) none (slots q) })
      → (o : Option A) (p : Process) → client_at (service_of k) (slots p) ≡ Option.map client o
      → viewed (body o p) ≡ abstract_dispose (service_of k) (view p)
  disposal_refines k client body nothing something seen none p h = rw h (nothing p h)
  disposal_refines k client body nothing something seen (some a) p h =
      elim (Result-cases (d.close p.trace (client a))) [
        | inl (done, x) ↦ rw (something a p, h, x, seen)
        | inr (e, x) ↦ rw (something a p, h, x)
      ]

  pub dispose_refines :
      (k : Disposable) (p : Process)
      → IsWired p
      → viewed (dispose d k p) ≡ abstract_dispose (service_of k) (view p)
  unfolding dispose_db dispose_redis dispose_qdrant dispose_llm dispose_embedding
  dispose_refines Disposable.database p w =
      subst
        (λ o.
          viewed (dispose_engines d o p.engine_write p)
          ≡ abstract_dispose Service.database (view p))
        (sym w.0)
        (disposal_refines Disposable.database (λ c. c) (λ o. dispose_engines d o o) (λ q e. rw e)
          (dispose_one_engine d) (λ q. refl) p.engine_write p (sym (map-id p.engine_write)))
  dispose_refines Disposable.redis p w =
      disposal_refines Disposable.redis (λ c. c) (dispose_pool d) (λ q e. refl) (λ a q. refl)
        (λ q. refl) p.redis_pool p (sym (map-id p.redis_pool))
  dispose_refines Disposable.qdrant p w =
      disposal_refines Disposable.qdrant (λ c. c) (dispose_client d) (λ q e. refl) (λ a q. refl)
        (λ q. refl) p.qdrant_client p (sym (map-id p.qdrant_client))
  dispose_refines Disposable.llm p w =
      disposal_refines Disposable.llm (λ a. a.client) (dispose_llm_adapter d) (λ q e. refl)
        (λ a q. refl) (λ q. refl) p.llm_adapter p refl
  dispose_refines Disposable.embedding p w =
      disposal_refines Disposable.embedding (λ a. a.client) (dispose_embedding_adapter d)
        (λ q e. refl) (λ a q. refl) (λ q. refl) p.embedding_adapter p refl

-- One call of an initializer or a disposal.
pub data Operation : Type 0 where
  initializing : Service → Operation
  disposing : Disposable → Operation

module _ (d : Drivers) where
  abbrev pub perform : Operation → Exec Process (Unit {0})
  perform (initializing k) = initialize d k
  perform (disposing k) = dispose d k

  abbrev pub abstract_perform : Operation → View → Result (Unit {0}) × View
  abstract_perform (initializing k) = abstract_initialize d k
  abstract_perform (disposing k) = abstract_dispose d (service_of k)

  -- The results of operations one after the other, whatever those before them do.
  unfoldable pub perform_all : List Operation → Process → List (Result (Unit {0})) × Process
  perform_all [] p = ([], p)
  perform_all (o ∷ operations) p =
      let (r, q) = perform o p in let (rest, end) = perform_all operations q in (r ∷ rest, end)

  unfoldable pub abstract_perform_all : List Operation → View → List (Result (Unit {0})) × View
  abstract_perform_all [] v = ([], v)
  abstract_perform_all (o ∷ operations) v =
      let (r, w) = abstract_perform o v in
      let (rest, end) = abstract_perform_all operations w in (r ∷ rest, end)

  perform_refines :
      (o : Operation) (p : Process)
      → IsWired p
      → (viewed (perform o p) ≡ abstract_perform o (view p)) × IsWired (perform o p).1
  perform_refines (initializing k) p w =
      (initialize_refines d k p, (initialize-Initializes d k p).1 w)
  perform_refines (disposing k) p w = (dispose_refines d k p w, (dispose-Disposes d k p w).1 w)

  -- Whatever the environment says and however constructing and closing go, from every process in
  -- which the four fields of `_DbState` agree: any sequence of initializers and disposals has the
  -- results of the abstract ones, one after the other, and leaves the cached settings, the client of
  -- each service and what was constructed and closed as they do.
  pub perform_all_refines :
      (operations : List Operation) (p : Process)
      → IsWired p
      → let (results, q) = perform_all operations p in
        (results, view q) ≡ abstract_perform_all operations (view p)
  unfolding perform_all abstract_perform_all
  perform_all_refines [] p w = refl
  perform_all_refines (o ∷ operations) p w =
      let (step, wired) = perform_refines o p w in
      rw (← step) (
        ap (λ (end : List (Result (Unit {0})) × View). ((perform o p).0 ∷ end.0, end.1))
          (perform_all_refines operations (perform o p).1 wired))
