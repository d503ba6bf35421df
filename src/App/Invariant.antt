-- ===== src/App/Invariant.antt =====
-- Invariants of a process under initializers and disposals in any order. The rules of such an
-- invariant speak of single effects, not of whole operations.
use ai_developer_copilot_pla.Prelude.{
  ℕ, ◌≡◌, ◌⊎◌, refl, sym, ap, subst, [], ◌∷◌, ◌++◌, Option, none, some, Option-cases, Bool-cases,
  length, inl, inr, ◌==◌, Reach-invariant,
}
use ai_developer_copilot_pla.Exn.{Exn, ok, raised, Result-cases}
use ai_developer_copilot_pla.Exec.{Exec, modify, ◌>>=◌, ◌>>◌}
use ai_developer_copilot_pla.Config.{Settings, settings_of}
use ai_developer_copilot_pla.Process.{
  Process, fresh, Drivers, opened, close_called, close_client, get_settings,
}
use ai_developer_copilot_pla.Db.Engines.{initialize_db, dispose_write, dispose_read, dispose_db}
use ai_developer_copilot_pla.Cache.Client.{initialize_redis, dispose_pool, dispose_redis}
use ai_developer_copilot_pla.Vector.Client.{initialize_qdrant, dispose_client, dispose_qdrant}
use ai_developer_copilot_pla.Storage.Client.{initialize_storage}
use ai_developer_copilot_pla.Llm.Client.{
  initialize_llm, dispose_adapter as dispose_llm_adapter, dispose_llm,
}
use ai_developer_copilot_pla.Embedding.Client.{
  initialize_embedding, dispose_adapter as dispose_embedding_adapter, dispose_embedding,
}
use ai_developer_copilot_pla.App.Slots.{Service, Disposable, initialize, dispose}
use ai_developer_copilot_pla.App.Changes.{
  adapter_initializer, initializer, initializer-adapter_initializer,
}
use ai_developer_copilot_pla.App.Ledger.{Step, initializes, disposes, Reached}
use ai_developer_copilot_pla.App.Effects.{spec_of, llm_of, embedding_of, install, give_up}

-- The rules: settings are read for the first time; a service gets a client that was just constructed;
-- a client is closed; a service gives its client up.
pub record Invariant (I : Process → Type 0) : Type 0 where
  pub starts : I fresh
  pub caches :
      (s : Settings) (p : Process)
      → p.settings_cache ≡ none
      → I p
      → I (record p { settings_cache = some s })
  pub opens :
      (k : Service) (s : Settings) (p : Process)
      → p.settings_cache ≡ some s
      → I p
      → I (
          install k s
            (length p.trace)
            (record p { trace = p.trace ++ opened (length p.trace) (spec_of s k) ∷ [] }))
  pub closes : (c : ℕ) (p : Process) → I p → I (record p { trace = p.trace ++ close_called c ∷ [] })
  pub gives_up : (k : Disposable) (p : Process) → I p → I (give_up k p)

module _ (I : Process → Type 0) (i : Invariant I) (d : Drivers) where
  read_settings :
      (p : Process)
      → I p
      → ((e : Exn) × (get_settings d p ≡ (raised e, p)))
        ⊎ ((s : Settings) × (get_settings d p ≡ (ok s, record p { settings_cache = some s }))
            × I (record p { settings_cache = some s }))
  read_settings p h = elim (Option-cases p.settings_cache) [
    | inl uncached ↦ elim (Result-cases (d.environment p.trace)) [
      | inl (fields, x) ↦
          let s = settings_of fields.0 fields.1 in
          inr (s, rw (uncached, x), i.caches s p uncached h)
      | inr (e, x) ↦ inl (e, rw (uncached, x))
    ]
    | inr (s, cached) ↦
        let same : p ≡ record p { settings_cache = some s } =
          ap (λ o. record p { settings_cache = o }) cached in
        inr (s, rw cached, subst I same h)
  ]

  adapter_keeps :
      {A : Type 0} (k : Service) (make : Settings → ℕ → A) (g : A → Process → Process)
      → ((s : Settings) (id : ℕ) (q : Process) → g (make s id) q ≡ install k s id q)
      → (p : Process) → I p
      → I (adapter_initializer d (λ s. spec_of s k) make g p).1
  unfolding adapter_initializer
  adapter_keeps k make g same p h = elim (read_settings p h) [
    | inl (e, x) ↦ rw x h
    | inr (s, x, j) ↦ elim (Result-cases (d.construct p.trace (spec_of s k))) [
      | inl (done, y) ↦
          let q : Process = record p { settings_cache = some s } in
          rw (x, y, same s (length p.trace)) (i.opens k s q refl j)
      | inr (e, y) ↦ rw (x, y) j
    ]
  ]

  initializer_keeps :
      (k : Service) (p : Process) → I p → I (initializer d (λ s. spec_of s k) (install k) p).1
  initializer_keeps k p h =
      subst (λ end. I end.1)
        (sym (initializer-adapter_initializer d (λ s. spec_of s k) (install k) p))
        (adapter_keeps k (install k) (λ f. f) (λ s id q. refl) p h)

  initialize_keeps : (k : Service) (p : Process) → I p → I (initialize d k p).1
  unfolding initialize_db initialize_redis initialize_qdrant initialize_storage initialize_llm
      initialize_embedding initializer adapter_initializer
  initialize_keeps Service.database p = initializer_keeps Service.database p
  initialize_keeps Service.redis p = initializer_keeps Service.redis p
  initialize_keeps Service.qdrant p = initializer_keeps Service.qdrant p
  initialize_keeps Service.storage p = initializer_keeps Service.storage p
  initialize_keeps Service.llm p = adapter_keeps Service.llm llm_of _ (λ s id q. refl) p
  initialize_keeps Service.embedding p =
      adapter_keeps Service.embedding embedding_of _ (λ s id q. refl) p

  disposal_keeps :
      {A : Type 0} (k : Disposable) (client : A → ℕ) (body : Option A → Exec Process (Unit {0}))
      → ((q : Process) → body none q ≡ (ok tt, q))
      → ((a : A) (q : Process)
          → body (some a) q ≡ (do close_client d (client a); modify (give_up k)) q)
      → (o : Option A) (p : Process) → I p
      → I (body o p).1
  disposal_keeps k client body nothing something none p h = rw (nothing p) h
  disposal_keeps k client body nothing something (some a) p h =
      elim (Result-cases (d.close p.trace (client a))) [
        | inl (done, x) ↦ rw (something a p, x) (i.gives_up k _ (i.closes (client a) p h))
        | inr (e, x) ↦ rw (something a p, x) (i.closes (client a) p h)
      ]

  write_keeps : (o : Option ℕ) (p : Process) → I p → I (dispose_write d o p).1
  write_keeps none p h = h
  write_keeps (some c) p h = i.closes c p h

  read_keeps : (o w : Option ℕ) (p : Process) → I p → I (dispose_read d o w p).1
  read_keeps none w p h = h
  read_keeps (some c) none p h = i.closes c p h
  read_keeps (some c) (some e) p h = elim (Bool-cases (c == e)) [
    | inl same ↦ rw same h
    | inr differ ↦ rw differ (i.closes c p h)
  ]

  bind_keeps :
      {A B : Type 0} (m : Exec Process A) (f : A → Exec Process B)
      → ((p : Process) → I p → I (m p).1)
      → ((a : A) (p : Process) → I p → I (f a p).1)
      → (p : Process) → I p
      → I ((m >>= f) p).1
  bind_keeps m f hm hf p h = elim (Result-cases (m p).0) [
    | inl (a, x) ↦ rw x (hf a (m p).1 (hm p h))
    | inr (e, x) ↦ rw x (hm p h)
  ]

  dispose_keeps : (k : Disposable) (p : Process) → I p → I (dispose d k p).1
  unfolding dispose_db dispose_redis dispose_qdrant dispose_llm dispose_embedding
  dispose_keeps Disposable.database p =
      bind_keeps (dispose_write d p.engine_write) _ (write_keeps p.engine_write)
        (λ _.
          bind_keeps (dispose_read d p.engine_read p.engine_write) _
            (read_keeps p.engine_read p.engine_write) (λ _. i.gives_up Disposable.database))
        p
  dispose_keeps Disposable.redis p =
      disposal_keeps Disposable.redis (λ c. c) (dispose_pool d) (λ q. refl) (λ a q. refl)
        p.redis_pool p
  dispose_keeps Disposable.qdrant p =
      disposal_keeps Disposable.qdrant (λ c. c) (dispose_client d) (λ q. refl) (λ a q. refl)
        p.qdrant_client p
  dispose_keeps Disposable.llm p =
      disposal_keeps Disposable.llm (λ a. a.client) (dispose_llm_adapter d) (λ q. refl)
        (λ a q. refl) p.llm_adapter p
  dispose_keeps Disposable.embedding p =
      disposal_keeps Disposable.embedding (λ a. a.client) (dispose_embedding_adapter d) (λ q. refl)
        (λ a q. refl) p.embedding_adapter p

  -- What keeps the rules holds of every process that initializers and disposals make.
  pub Invariant-Reached : (p : Process) → Reached d p → I p
  Invariant-Reached p reached = Reach-invariant (Step d) I Step_keeps reached i.starts
    where
      Step_keeps : (q r : Process) → Step d q r → I q → I r
      Step_keeps q r (initializes k e) h = rw e (initialize_keeps k q h)
      Step_keeps q r (disposes k e) h = rw e (dispose_keeps k q h)
