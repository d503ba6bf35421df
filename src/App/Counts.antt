-- ===== src/App/Counts.antt =====
-- How often a client is held, constructed and closed.
use ai_developer_copilot_pla.Prelude.{
  ℕ, ◌+◌, ◌≤◌, ◌≡◌, ◌≢◌, refl, List, [], ◌∷◌, ◌++◌, Option, none, some, ◌==◌, if◌then◌else◌, arith,
  ◌⊎◌,
}
use ai_developer_copilot_pla.Process.{ClientSpec, Event, opened, close_called}
use ai_developer_copilot_pla.App.Slots.{Service, Slots, client_at, replace}

abbrev pub one_if_same : ℕ → ℕ → ℕ
one_if_same id c = if id == c then 1 else 0

abbrev pub in_slot : ℕ → Option ℕ → ℕ
in_slot id none = 0
in_slot id (some c) = one_if_same id c

-- How many services hold the client.
unfoldable pub holds : ℕ → Slots → ℕ
holds id v =
    in_slot id v.database
    + in_slot id v.redis
    + in_slot id v.qdrant
    + in_slot id v.storage
    + in_slot id v.llm
    + in_slot id v.embedding

-- How often the trace constructs the client.
unfoldable pub opens : ℕ → List Event → ℕ
opens id [] = 0
opens id (opened c spec ∷ events) = one_if_same id c + opens id events
opens id (close_called c ∷ events) = opens id events

-- How often it closes it.
unfoldable pub closes : ℕ → List Event → ℕ
closes id [] = 0
closes id (opened c spec ∷ events) = closes id events
closes id (close_called c ∷ events) = one_if_same id c + closes id events

pub one_if_same-cases :
    (id c : ℕ) → ((id ≡ c) × (one_if_same id c ≡ 1)) ⊎ ((id ≢ c) × (one_if_same id c ≡ 0))
one_if_same-cases id c = ground arith

pub holds-replace :
    (id : ℕ) (s : Service) (x : Option ℕ) (v : Slots)
    → holds id (replace s x v) + in_slot id (client_at s v) ≡ holds id v + in_slot id x
unfolding holds
holds-replace id Service.database x v = omega arith
holds-replace id Service.redis x v = omega arith
holds-replace id Service.qdrant x v = omega arith
holds-replace id Service.storage x v = omega arith
holds-replace id Service.llm x v = omega arith
holds-replace id Service.embedding x v = omega arith

pub in_slot-holds : (id : ℕ) (s : Service) (v : Slots) → in_slot id (client_at s v) ≤ holds id v
unfolding holds
in_slot-holds id Service.database v = omega arith
in_slot-holds id Service.redis v = omega arith
in_slot-holds id Service.qdrant v = omega arith
in_slot-holds id Service.storage v = omega arith
in_slot-holds id Service.llm v = omega arith
in_slot-holds id Service.embedding v = omega arith

module _ (id c : ℕ) (spec : ClientSpec) where
  pub opens-opened :
      (events : List Event)
      → opens id (events ++ opened c spec ∷ []) ≡ opens id events + one_if_same id c
  unfolding opens
  opens-opened [] = omega arith
  opens-opened (opened i s ∷ events) = omega (arith, opens-opened events)
  opens-opened (close_called i ∷ events) = opens-opened events

  pub closes-opened :
      (events : List Event) → closes id (events ++ opened c spec ∷ []) ≡ closes id events
  unfolding closes
  closes-opened [] = refl
  closes-opened (opened i s ∷ events) = closes-opened events
  closes-opened (close_called i ∷ events) = omega (arith, closes-opened events)

module _ (id c : ℕ) where
  pub opens-close_called :
      (events : List Event) → opens id (events ++ close_called c ∷ []) ≡ opens id events
  unfolding opens
  opens-close_called [] = refl
  opens-close_called (opened i s ∷ events) = omega (arith, opens-close_called events)
  opens-close_called (close_called i ∷ events) = opens-close_called events

  pub closes-close_called :
      (events : List Event)
      → closes id (events ++ close_called c ∷ []) ≡ closes id events + one_if_same id c
  unfolding closes
  closes-close_called [] = omega arith
  closes-close_called (opened i s ∷ events) = closes-close_called events
  closes-close_called (close_called i ∷ events) = omega (arith, closes-close_called events)
