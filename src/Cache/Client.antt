-- ===== src/Cache/Client.antt =====
-- `initialize_redis`, `dispose_redis` and `get_redis` of
-- backend/app/infrastructure/cache/redis_client.py.
use ai_developer_copilot_pla.Prelude.{ℕ, true, Option, none, some}
use ai_developer_copilot_pla.Text.{codes}
use ai_developer_copilot_pla.Exn.{runtime}
use ai_developer_copilot_pla.Exec.{Exec, pure, raise, modify, ◌>>=◌, ◌>>◌}
use ai_developer_copilot_pla.Process.{
  Process, Drivers, ClientSpec, open_client, close_client, get_settings,
}

module _ (d : Drivers) where
  unfoldable pub initialize_redis : Exec Process (Unit {0})
  initialize_redis = do
    settings ← get_settings d
    pool ← open_client d (ClientSpec.redis_pool settings.redis_url (codes "utf-8") true 20 5 5)
    modify (λ p. record p { redis_pool = some pool })

  abbrev pub dispose_pool : Option ℕ → Exec Process (Unit {0})
  dispose_pool none = pure tt
  dispose_pool (some pool) = do close_client d pool; modify (λ p. record p { redis_pool = none })

  unfoldable pub dispose_redis : Exec Process (Unit {0})
  dispose_redis p = dispose_pool p.redis_pool p

abbrev pool_or_raise : Option ℕ → Exec Process ℕ
pool_or_raise none =
    raise (runtime (codes "Redis not initialized. Call initialize_redis() from the app lifespan."))
pool_or_raise (some pool) = pure pool

unfoldable pub get_redis : Exec Process ℕ
get_redis p = pool_or_raise p.redis_pool p
