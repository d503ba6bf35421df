-- ===== src/Health/Checks.antt =====
-- The connectivity checks that the health endpoint runs: `check_db_health` of
-- backend/app/infrastructure/db/session.py, `check_redis_health` of
-- backend/app/infrastructure/cache/redis_client.py and `check_qdrant_health` of
-- backend/app/infrastructure/vector/qdrant_client.py. What the services answer is a parameter.
use ai_developer_copilot_pla.Prelude.{ℕ, Bool, true, false, Option, none, some, if◌then◌else◌}
use ai_developer_copilot_pla.Exn.{Exn, Result, is_exception}
use ai_developer_copilot_pla.Exec.{Exec, pure, raise, lift, ◌>>=◌, ◌>>◌, try_except}
use ai_developer_copilot_pla.Process.{Process, SessionMaker}
use ai_developer_copilot_pla.Db.Session.{SessionCalls, get_read_session}
use ai_developer_copilot_pla.Cache.Client.{get_redis}
use ai_developer_copilot_pla.Vector.Client.{get_qdrant_client}

-- `except Exception: return False`.
abbrev pub exception_is_false : {S : Type 0} → Exn → Exec S Bool
exception_is_false e = if is_exception e then pure false else raise e

module _ {S : Type 0} (session : SessionCalls S) (select_1 : Exec S (Unit {0})) where
  unfoldable pub check_db_health : Option SessionMaker → Exec S Bool
  unfolding get_read_session
  check_db_health none = pure false
  check_db_health (some maker) =
      try_except (do get_read_session session (some maker) select_1; pure true) exception_is_false

-- `ping` is what the pool answers, as a truth value.
unfoldable pub check_redis_health : (ℕ → Result Bool) → Exec Process Bool
unfolding get_redis
check_redis_health ping = try_except (do pool ← get_redis; lift (ping pool)) exception_is_false

unfoldable pub check_qdrant_health : (ℕ → Result (Unit {0})) → Exec Process Bool
unfolding get_qdrant_client
check_qdrant_health get_collections =
    try_except (do client ← get_qdrant_client; lift (get_collections client); pure true)
      exception_is_false
