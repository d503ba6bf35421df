-- ===== src/Health/Endpoint.antt =====
-- `_probe` and `health_check` of backend/app/interfaces/api/v1/health.py.
use ai_developer_copilot_pla.Prelude.{
  ℕ, Bool, true, false, Option, none, some, ◌&&◌, ltb, if◌then◌else◌,
}
use ai_developer_copilot_pla.Exn.{Result, timed_out, is_exception, ◌>>=◌}

pub data ServiceStatus : Type 0 where
  ok error : ServiceStatus

pub data Overall : Type 0 where
  healthy degraded : Overall

pub record ServiceHealth : Type 0 where
  pub database : ServiceStatus
  pub redis : ServiceStatus
  pub qdrant : ServiceStatus

pub record HealthResponse : Type 0 where
  pub status : Overall
  pub services : ServiceHealth

-- A health check that runs: the milliseconds until it ends, if it ever does, and how.
pub record Coroutine : Type 0 where
  pub elapsed : Option ℕ
  pub outcome : Result Bool

-- `_PROBE_TIMEOUT_SECONDS`, in milliseconds.
abbrev pub probe_timeout : ℕ
probe_timeout = 2000

abbrev pub before_timeout : Option ℕ → Bool
before_timeout none = false
before_timeout (some n) = ltb n probe_timeout

-- What `asyncio.wait_for(coro, timeout=_PROBE_TIMEOUT_SECONDS)` gives in the end.
abbrev pub wait_for : Coroutine → Result Bool
wait_for c = if before_timeout c.elapsed then c.outcome else Result.raised timed_out

abbrev pub status_of : Result Bool → Result ServiceStatus
status_of (Result.ok true) = Result.ok ok
status_of (Result.ok false) = Result.ok error
status_of (Result.raised e) = if is_exception e then Result.ok error else Result.raised e

unfoldable pub probe : Coroutine → Result ServiceStatus
probe coro = status_of (wait_for coro)

abbrev is_healthy : ServiceStatus → Bool
is_healthy ok = true
is_healthy error = false

abbrev pub overall : ServiceHealth → Overall
overall s =
    if is_healthy s.database && (is_healthy s.redis && is_healthy s.qdrant)
    then healthy
    else degraded

-- The three probes run at once; `asyncio.gather` gives their results in the order of its arguments.
-- Where several of them raise, the first in that order stands here for the first in time.
unfoldable pub health_check : Coroutine → Coroutine → Coroutine → Result HealthResponse
unfolding probe
health_check database redis qdrant = do
  db_status ← probe database
  redis_status ← probe redis
  qdrant_status ← probe qdrant
  let services : ServiceHealth = record {
    database = db_status;
    redis = redis_status;
    qdrant = qdrant_status;
  }
  Result.ok (record { status = overall services; services = services })
