-- ===== src/Health/Availability.antt =====
-- The health endpoint over the lifecycle of the process.
use ai_developer_copilot_pla.Prelude.{ℕ, ◌<◌, ◌≡◌, Bool, true, Option, some, arith}
use ai_developer_copilot_pla.Exn.{Result, ok}
use ai_developer_copilot_pla.Exec.{Exec}
use ai_developer_copilot_pla.Config.{Settings}
use ai_developer_copilot_pla.Process.{Process}
use ai_developer_copilot_pla.Db.Session.{SessionCalls}
use ai_developer_copilot_pla.App.Lifecycle.{started, stopped}
use ai_developer_copilot_pla.Health.Checks.{
  check_db_health, check_redis_health, check_qdrant_health,
}
use ai_developer_copilot_pla.Health.Endpoint.{
  Coroutine, ServiceStatus, healthy, degraded, HealthResponse, probe_timeout, health_check,
}

-- What the three services do with the requests of the checks, and how long the checks take.
pub record Services (S : Type 0) : Type 0 where
  pub session : SessionCalls S
  pub select_1 : Exec S (Unit {0})
  pub state : S
  pub ping : ℕ → Result Bool
  pub get_collections : ℕ → Result (Unit {0})
  pub db_time : Option ℕ
  pub redis_time : Option ℕ
  pub qdrant_time : Option ℕ

module _ {S : Type 0} (v : Services S) (p : Process) where
  abbrev pub database_check : Coroutine
  database_check = record {
    elapsed = v.db_time;
    outcome = (check_db_health v.session v.select_1 p.session_read v.state).0;
  }

  abbrev pub redis_check : Coroutine
  redis_check = record { elapsed = v.redis_time; outcome = (check_redis_health v.ping p).0 }

  abbrev pub qdrant_check : Coroutine
  qdrant_check = record {
    elapsed = v.qdrant_time;
    outcome = (check_qdrant_health v.get_collections p).0;
  }

  -- `GET /health` on a process.
  abbrev pub health_of : Result HealthResponse
  health_of = health_check database_check redis_check qdrant_check

abbrev pub report : ServiceStatus → HealthResponse
report s = record {
  status = elim s [ ServiceStatus.ok ↦ healthy | ServiceStatus.error ↦ degraded ];
  services = record { database = s; redis = s; qdrant = s };
}

module _ {S : Type 0} (v : Services S) (s : Settings) where
  -- On a process that has shut down, whatever the services do, the endpoint reports `degraded` and an
  -- error for each service.
  pub health_of-stopped : health_of v (stopped s) ≡ ok (report ServiceStatus.error)
  unfolding health_check check_db_health check_redis_health check_qdrant_health
  health_of-stopped = ground arith

  -- On a process that has started up, if the three services answer before the timeout, the ping with
  -- `True`, and the database session closes without an exception, the endpoint reports `healthy`.
  health_of-started :
      (x y z : ℕ)
      → v.db_time ≡ some x
      → v.redis_time ≡ some y
      → v.qdrant_time ≡ some z
      → x < probe_timeout
      → y < probe_timeout
      → z < probe_timeout
      → (v.select_1 v.state).0 ≡ ok tt
      → ((t : S) → (v.session.close t).0 ≡ ok tt)
      → v.ping 1 ≡ ok true
      → v.get_collections 2 ≡ ok tt
      → health_of v (started s) ≡ ok (report ServiceStatus.ok)
  unfolding health_check check_db_health check_redis_health check_qdrant_health
  health_of-started x y z dx dy dz lx ly lz selected closes pinged listed =
      ground (arith, closes (v.select_1 v.state).1)

-- The services answer the checks of a started process in time.
pub record Answering {S : Type 0} (v : Services S) : Type 0 where
  pub times : ℕ × ℕ × ℕ
  pub database_in : v.db_time ≡ some times.0
  pub redis_in : v.redis_time ≡ some times.1
  pub qdrant_in : v.qdrant_time ≡ some times.2
  pub in_time : (times.0 < probe_timeout) × (times.1 < probe_timeout) × (times.2 < probe_timeout)
  pub selected : (v.select_1 v.state).0 ≡ ok tt
  pub closes : (t : S) → (v.session.close t).0 ≡ ok tt
  pub pinged : v.ping 1 ≡ ok true
  pub listed : v.get_collections 2 ≡ ok tt

pub Answering-healthy :
    {S : Type 0} (v : Services S) (s : Settings)
    → Answering v
    → health_of v (started s) ≡ ok (report ServiceStatus.ok)
Answering-healthy v s a =
    health_of-started v s a.times.0 a.times.1 a.times.2 a.database_in a.redis_in a.qdrant_in
      a.in_time.0 a.in_time.1 a.in_time.2 a.selected a.closes a.pinged a.listed
