-- ===== src/Health/Gather.antt =====
-- How long `asyncio.gather` in backend/app/interfaces/api/v1/health.py waits, and what it brings.
use ai_developer_copilot_pla.Prelude.{ℕ, ◌+◌, ◌-◌, ◌≤◌, ◌≡◌, Option, none, some, ◌⊎◌, Bool}
use ai_developer_copilot_pla.Exn.{Exn, Result, ok, raised}
use ai_developer_copilot_pla.Health.Endpoint.{
  ServiceStatus, ServiceHealth, Coroutine, probe_timeout, probe, overall, health_check,
}
use ai_developer_copilot_pla.Health.Report.{Reports, LetsOut}
use ai_developer_copilot_pla.Health.Loop.{wait_for_at, Gathering, waiting, gathered, Wake}

abbrev missing : Option ServiceStatus → ℕ
missing none = 1
missing (some s) = 0

abbrev running : Option ServiceStatus → Option ServiceStatus → Option ServiceStatus → ℕ
running a b c = missing a + missing b + missing c

-- The milliseconds and the probes that `gather` still waits for, at most.
abbrev left : Gathering → ℕ
left (waiting n a b c) = (probe_timeout - n) + running a b c
left (gathered result) = 0

module _ (database redis qdrant : Coroutine) where
  abbrev Came : Coroutine → Option ServiceStatus → Type 0
  Came c none = Unit
  Came c (some s) = probe c ≡ ok s

  abbrev IsKept : Gathering → Type 0
  IsKept (waiting n a b c) =
      (n ≤ probe_timeout) × (1 ≤ running a b c) × Came database a × Came redis b × Came qdrant c
  IsKept (gathered (ok services)) =
      (probe database ≡ ok services.database)
      × (probe redis ≡ ok services.redis)
      × (probe qdrant ≡ ok services.qdrant)
  IsKept (gathered (raised e)) =
      (probe database ≡ raised e) ⊎ (probe redis ≡ raised e) ⊎ (probe qdrant ≡ raised e)

  abbrev Within : ℕ → Gathering → Type 0
  Within m s = IsKept s × (left s ≤ m)

  -- The state is the last one, or something can go on.
  abbrev pub Goes : Gathering → Type 0
  Goes s =
      ((result : Result ServiceHealth) × (s ≡ gathered result))
      ⊎ ((t : Gathering) × Wake database redis qdrant s t)

  abbrev Ready : Coroutine → Option ServiceStatus → ℕ → Type 0
  Ready c a n = (a ≡ none) × (r : Result Bool) × (wait_for_at c n ≡ some r)

  -- What holds of a state: the time is not past the timeout, or the result is that of the checks.
  abbrev pub Holds : Gathering → Type 0
  Holds (waiting n a b c) = n ≤ probe_timeout
  Holds (gathered (ok services)) =
      (health_check database redis qdrant
        ≡ ok (record { status = overall services; services = services }))
      × Reports services.database database
      × Reports services.redis redis
      × Reports services.qdrant qdrant
  Holds (gathered (raised e)) = LetsOut database e ⊎ LetsOut redis e ⊎ LetsOut qdrant e
