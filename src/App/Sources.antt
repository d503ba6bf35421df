-- ===== src/App/Sources.antt =====
-- Where the clients and the adapters of a process come from.
use ai_developer_copilot_pla.Prelude.{
  ℕ, ◌≡◌, refl, subst, List, [], ◌∷◌, ◌++◌, Option, none, some, length, All, All-append,
}
use ai_developer_copilot_pla.Config.{Settings}
use ai_developer_copilot_pla.Process.{Process, fresh, Drivers, Event, opened, close_called}
use ai_developer_copilot_pla.App.Slots.{Service, Disposable}
use ai_developer_copilot_pla.App.Effects.{
  spec_of, storage_of, llm_of, embedding_of, install, give_up,
}
use ai_developer_copilot_pla.App.Invariant.{Invariant, Invariant-Reached}
use ai_developer_copilot_pla.App.Ledger.{Reached}
use ai_developer_copilot_pla.App.Made.{
  IsMade, nothing_held, later-IsMade, cached-IsMade, now-IsMade,
}

-- A client of the event was constructed from the settings, or, without settings, the event
-- constructs none.
abbrev pub IsFrom : Option Settings → Event → Type 0
IsFrom (some s) (opened id spec) = (k : Service) × (spec ≡ spec_of s k)
IsFrom none (opened id spec) = ⊥
IsFrom o (close_called id) = Unit

abbrev pub AllFrom : Option Settings → List Event → Type 0
AllFrom o = All (IsFrom o)

closed-IsFrom : (o : Option Settings) (id : ℕ) → IsFrom o (close_called id)
closed-IsFrom none id = tt
closed-IsFrom (some s) id = tt

renewed : (s : Settings) (events : List Event) → AllFrom none events → AllFrom (some s) events
renewed s [] h = tt
renewed s (opened id spec ∷ events) h = absurd h.0
renewed s (close_called id ∷ events) h = (tt, renewed s events h.1)

abbrev pub client_alone : Settings → ℕ → ℕ
client_alone s id = id

-- What a process holds, and all that it has constructed, comes from the cached settings.
pub record IsConfigured (p : Process) : Type 0 where
  pub events : AllFrom p.settings_cache p.trace
  pub database :
      IsMade Service.database client_alone (λ c. c) p.settings_cache p.engine_write p.trace
  pub redis : IsMade Service.redis client_alone (λ c. c) p.settings_cache p.redis_pool p.trace
  pub qdrant : IsMade Service.qdrant client_alone (λ c. c) p.settings_cache p.qdrant_client p.trace
  pub storage :
      IsMade Service.storage storage_of (λ a. a.client) p.settings_cache p.storage_adapter p.trace
  pub llm : IsMade Service.llm llm_of (λ a. a.client) p.settings_cache p.llm_adapter p.trace
  pub embedding :
      IsMade Service.embedding embedding_of
        (λ a. a.client)
        p.settings_cache
        p.embedding_adapter
        p.trace

configured :
    (p : Process)
    → AllFrom p.settings_cache p.trace
    → IsMade Service.database client_alone (λ c. c) p.settings_cache p.engine_write p.trace
    → IsMade Service.redis client_alone (λ c. c) p.settings_cache p.redis_pool p.trace
    → IsMade Service.qdrant client_alone (λ c. c) p.settings_cache p.qdrant_client p.trace
    → IsMade Service.storage storage_of (λ a. a.client) p.settings_cache p.storage_adapter p.trace
    → IsMade Service.llm llm_of (λ a. a.client) p.settings_cache p.llm_adapter p.trace
    → IsMade Service.embedding embedding_of
        (λ a. a.client)
        p.settings_cache
        p.embedding_adapter
        p.trace
    → IsConfigured p
configured p e d r q s l m = record {
  events = e;
  database = d;
  redis = r;
  qdrant = q;
  storage = s;
  llm = l;
  embedding = m;
}

fresh-IsConfigured : IsConfigured fresh
fresh-IsConfigured =
    configured fresh tt (nothing_held none []) (nothing_held none []) (nothing_held none [])
      (nothing_held none []) (nothing_held none []) (nothing_held none [])

module _ (p : Process) (h : IsConfigured p) where
  cached-IsConfigured :
      (s : Settings) → p.settings_cache ≡ none → IsConfigured (record p { settings_cache = some s })
  cached-IsConfigured s uncached = record {
    events = renewed s p.trace (subst (λ o. AllFrom o p.trace) uncached h.events);
    database = cached-IsMade s uncached h.database;
    redis = cached-IsMade s uncached h.redis;
    qdrant = cached-IsMade s uncached h.qdrant;
    storage = cached-IsMade s uncached h.storage;
    llm = cached-IsMade s uncached h.llm;
    embedding = cached-IsMade s uncached h.embedding;
  }

  later-IsConfigured :
      (e : Event)
      → IsFrom p.settings_cache e
      → IsConfigured (record p { trace = p.trace ++ e ∷ [] })
  later-IsConfigured e from = record {
    events = All-append (IsFrom p.settings_cache) p.trace (e ∷ []) h.events (from, tt);
    database = later-IsMade e h.database;
    redis = later-IsMade e h.redis;
    qdrant = later-IsMade e h.qdrant;
    storage = later-IsMade e h.storage;
    llm = later-IsMade e h.llm;
    embedding = later-IsMade e h.embedding;
  }

  opened-IsConfigured :
      (k : Service) (s : Settings)
      → p.settings_cache ≡ some s
      → let n = length p.trace in
        IsConfigured (install k s n (record p { trace = p.trace ++ opened n (spec_of s k) ∷ [] }))
  opened-IsConfigured Service.database s x =
      let l =
        later-IsConfigured (opened (length p.trace) (spec_of s Service.database))
          (rw x (Service.database, refl)) in
      configured _ l.events (now-IsMade s (length p.trace) p.trace x refl) l.redis l.qdrant
        l.storage l.llm l.embedding
  opened-IsConfigured Service.redis s x =
      let l =
        later-IsConfigured (opened (length p.trace) (spec_of s Service.redis))
          (rw x (Service.redis, refl)) in
      configured _ l.events l.database (now-IsMade s (length p.trace) p.trace x refl) l.qdrant
        l.storage l.llm l.embedding
  opened-IsConfigured Service.qdrant s x =
      let l =
        later-IsConfigured (opened (length p.trace) (spec_of s Service.qdrant))
          (rw x (Service.qdrant, refl)) in
      configured _ l.events l.database l.redis (now-IsMade s (length p.trace) p.trace x refl)
        l.storage l.llm l.embedding
  opened-IsConfigured Service.storage s x =
      let l =
        later-IsConfigured (opened (length p.trace) (spec_of s Service.storage))
          (rw x (Service.storage, refl)) in
      configured _ l.events l.database l.redis l.qdrant
        (now-IsMade s (length p.trace) p.trace x refl) l.llm l.embedding
  opened-IsConfigured Service.llm s x =
      let l =
        later-IsConfigured (opened (length p.trace) (spec_of s Service.llm))
          (rw x (Service.llm, refl)) in
      configured _ l.events l.database l.redis l.qdrant l.storage
        (now-IsMade s (length p.trace) p.trace x refl) l.embedding
  opened-IsConfigured Service.embedding s x =
      let l =
        later-IsConfigured (opened (length p.trace) (spec_of s Service.embedding))
          (rw x (Service.embedding, refl)) in
      configured _ l.events l.database l.redis l.qdrant l.storage l.llm
        (now-IsMade s (length p.trace) p.trace x refl)

  released-IsConfigured : (k : Disposable) → IsConfigured (give_up k p)
  released-IsConfigured Disposable.database =
      configured _ h.events (nothing_held p.settings_cache p.trace) h.redis h.qdrant h.storage h.llm
        h.embedding
  released-IsConfigured Disposable.redis =
      configured _ h.events h.database (nothing_held p.settings_cache p.trace) h.qdrant h.storage
        h.llm h.embedding
  released-IsConfigured Disposable.qdrant =
      configured _ h.events h.database h.redis (nothing_held p.settings_cache p.trace) h.storage
        h.llm h.embedding
  released-IsConfigured Disposable.llm =
      configured _ h.events h.database h.redis h.qdrant h.storage
        (nothing_held p.settings_cache p.trace) h.embedding
  released-IsConfigured Disposable.embedding =
      configured _ h.events h.database h.redis h.qdrant h.storage h.llm
        (nothing_held p.settings_cache p.trace)

IsConfigured-Invariant : Invariant IsConfigured
IsConfigured-Invariant = record {
  starts = fresh-IsConfigured;
  caches = λ s p uncached h. cached-IsConfigured p h s uncached;
  opens = λ k s p cached h. opened-IsConfigured p h k s cached;
  closes = λ c p h. later-IsConfigured p h (close_called c) (closed-IsFrom p.settings_cache c);
  gives_up = λ k p h. released-IsConfigured p h k;
}

-- Whatever initializers and disposals were called, in any order, however they ended, and whatever the
-- environment said at the time of each: all clients that the process has constructed, those that it
-- gave up included, were constructed with the arguments that some service takes from the cached
-- settings. What a service holds is made of these settings: the adapters carry their bucket, models,
-- number of tries and batch size, and the client was constructed with the arguments of that service.
-- A process that has cached no settings has constructed nothing and holds nothing.
pub Reached-IsConfigured : (d : Drivers) (p : Process) → Reached d p → IsConfigured p
Reached-IsConfigured d = Invariant-Reached IsConfigured IsConfigured-Invariant d
