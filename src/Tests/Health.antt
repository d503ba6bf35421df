-- ===== src/Tests/Health.antt =====
-- The health endpoint over checks that succeed, fail and hang.
use ai_developer_copilot_pla.Prelude.{◌≡◌, Bool, true, refl, arith, none, some, ◌↔◌}
use ai_developer_copilot_pla.Exn.{ok, raised, value_error, timed_out}
use ai_developer_copilot_pla.Health.Endpoint.{
  ServiceStatus, healthy, degraded, HealthResponse, Coroutine, health_check,
}
use ai_developer_copilot_pla.Health.Report.{Succeeds, Reports, health_check-Reports}
use ai_developer_copilot_pla.Health.Loop.{Gathering, gathered, wait_for_at}
use ai_developer_copilot_pla.Health.Availability.{Services, health_of}
use ai_developer_copilot_pla.Health.Absent.{Checked, health_of-absent}
use ai_developer_copilot_pla.Health.Checks.{
  check_db_health, check_redis_health, check_qdrant_health,
}
use ai_developer_copilot_pla.Process.{Process, fresh}

abbrev quick : Coroutine
quick = record { elapsed = some 12; outcome = ok true }

abbrev refused : Coroutine
refused = record { elapsed = some 3; outcome = raised value_error }

abbrev hanging : Coroutine
hanging = record { elapsed = none; outcome = ok true }

health_check_test :
    health_check quick refused hanging
    ≡ ok (record {
      status = degraded;
      services = record {
        database = ServiceStatus.ok;
        redis = ServiceStatus.error;
        qdrant = ServiceStatus.error;
      };
    })
unfolding health_check
health_check_test = refl

health_check-Reports_example :
    (response : HealthResponse) × (health_check quick refused hanging ≡ ok response)
    × Reports response.services.database quick
    × Reports response.services.redis refused
    × Reports response.services.qdrant hanging
    × ((response.status ≡ healthy) ↔ (Succeeds quick × Succeeds refused × Succeeds hanging))
health_check-Reports_example =
    health_check-Reports quick refused hanging (λ e h. cc) (λ e h. ground arith) (λ e h. cc)

-- Services that answer at once.
abbrev pub services : Services (Unit {0})
services = record {
  session = record {
    commit = λ s. (ok tt, s);
    rollback = λ s. (ok tt, s);
    close = λ s. (ok tt, s);
  };
  select_1 = λ s. (ok tt, s);
  state = tt;
  ping = λ pool. ok true;
  get_collections = λ client. ok tt;
  db_time = some 4;
  redis_time = some 1;
  qdrant_time = some 1999;
}

-- A process that has a pool for Redis alone.
abbrev pooled : Process
pooled = record fresh { redis_pool = some 0 }

abbrev only_redis : HealthResponse
only_redis = record {
  status = degraded;
  services = record {
    database = ServiceStatus.error;
    redis = ServiceStatus.ok;
    qdrant = ServiceStatus.error;
  };
}

pooled_test : health_of services pooled ≡ ok only_redis
unfolding health_check check_db_health check_redis_health check_qdrant_health
pooled_test = refl

health_of-absent_example :
    (response : HealthResponse) × (health_of services pooled ≡ ok response)
    × (response.services.qdrant ≡ ServiceStatus.error)
    × (response.status ≡ degraded)
unfolding check_db_health check_redis_health check_qdrant_health
health_of-absent_example =
    health_of-absent services Checked.qdrant pooled refl (λ e h. cc) (λ e h. cc) (λ e h. cc)

-- One check raises at once, and the others end after a millisecond, the database last.
abbrev at_once : Coroutine
at_once = record { elapsed = some 0; outcome = raised value_error }

abbrev soon : Bool → Coroutine
soon b = record { elapsed = some 1; outcome = ok b }

abbrev all_ended : Gathering
all_ended = gathered (
    ok (record {
      database = ServiceStatus.ok;
      redis = ServiceStatus.error;
      qdrant = ServiceStatus.error;
    }))

hanging_test :
    (wait_for_at hanging 1999 ≡ none) × (wait_for_at hanging 2000 ≡ some (raised timed_out))
hanging_test = (refl, refl)
