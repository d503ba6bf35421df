-- ===== src/Health/Loop.antt =====
-- `asyncio.gather` in backend/app/interfaces/api/v1/health.py runs the three probes: over a clock
-- in milliseconds, with probes that end by their checks or by their timeouts. The first exception of
-- a probe ends the wait at once, and otherwise the results are given in the order of the arguments.
-- The event loop is idle: what can go on does so before time passes.
use ai_developer_copilot_pla.Prelude.{
  ℕ, ◌+◌, ◌<◌, ◌≡◌, Option, none, some, ◌⊎◌, inl, inr, arith, Bool, false, ltb, leb, ◌&&◌,
  if◌then◌else◌, Reach, Option-cases,
}
use ai_developer_copilot_pla.Exn.{Result, ok, raised, timed_out}
use ai_developer_copilot_pla.Health.Endpoint.{
  ServiceStatus, ServiceHealth, Coroutine, probe_timeout, wait_for, status_of,
}

-- The check has ended by the time `t`, before its timeout.
abbrev ended_by : Option ℕ → ℕ → Bool
ended_by none t = false
ended_by (some n) t = leb n t && ltb n probe_timeout

-- What `asyncio.wait_for` has at the time `t`, if it is over: the outcome of the check, or, from the
-- timeout on, `TimeoutError`.
abbrev pub wait_for_at : Coroutine → ℕ → Option (Result Bool)
wait_for_at c t =
    if ended_by c.elapsed t
    then some c.outcome
    else (if leb probe_timeout t then some (raised timed_out) else none)

-- The time and the results so far, and the result of `gather`.
pub data Gathering : Type 0 where
  waiting : ℕ → Option ServiceStatus → Option ServiceStatus → Option ServiceStatus → Gathering
  gathered : Result ServiceHealth → Gathering

abbrev pub collect :
    ℕ → Option ServiceStatus → Option ServiceStatus → Option ServiceStatus → Gathering
collect t (some a) (some b) (some c) =
    gathered (ok (record { database = a; redis = b; qdrant = c }))
collect t a b c = waiting t a b c

-- The rest of `_probe`, and what `gather` does with its result.
abbrev pub settle : Result ServiceStatus → (ServiceStatus → Gathering) → Gathering
settle (ok s) rest = rest s
settle (raised e) rest = gathered (raised e)

-- A probe that has not ended cannot go on at the time `t`.
abbrev pub Sleeps : Coroutine → Option ServiceStatus → ℕ → Type 0
Sleeps c none t = wait_for_at c t ≡ none
Sleeps c (some s) t = Unit

module _ (database redis qdrant : Coroutine) where
  -- One of the probes that still run goes on to its end, or a millisecond passes.
  pub data Wake (s t : Gathering) : Type 0 where
    wakes_database :
        (n : ℕ) (b c : Option ServiceStatus) (r : Result Bool)
        → s ≡ waiting n none b c
        → wait_for_at database n ≡ some r
        → t ≡ settle (status_of r) (λ a. collect n (some a) b c)
        → Wake s t
    wakes_redis :
        (n : ℕ) (a c : Option ServiceStatus) (r : Result Bool)
        → s ≡ waiting n a none c
        → wait_for_at redis n ≡ some r
        → t ≡ settle (status_of r) (λ b. collect n a (some b) c)
        → Wake s t
    wakes_qdrant :
        (n : ℕ) (a b : Option ServiceStatus) (r : Result Bool)
        → s ≡ waiting n a b none
        → wait_for_at qdrant n ≡ some r
        → t ≡ settle (status_of r) (λ c. collect n a b (some c))
        → Wake s t
    passes :
        (n : ℕ) (a b c : Option ServiceStatus)
        → s ≡ waiting n a b c
        → Sleeps database a n
        → Sleeps redis b n
        → Sleeps qdrant c n
        → t ≡ waiting (n + 1) a b c
        → Wake s t

  abbrev pub Gathers : Gathering → Type 0
  Gathers = Reach Wake (waiting 0 none none none)

pub wait_for_at-cases :
    (c : Coroutine) (t : ℕ)
    → (wait_for_at c t ≡ some (wait_for c)) ⊎ ((wait_for_at c t ≡ none) × (t < probe_timeout))
wait_for_at-cases c t = elim (Option-cases c.elapsed) [
  | inl never ↦ ground (arith, never)
  | inr (n, ends) ↦ ground (arith, ends)
]
