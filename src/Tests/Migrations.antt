-- ===== src/Tests/Migrations.antt =====
-- The migration environment with migrations that fail.
use ai_developer_copilot_pla.Prelude.{◌≤◌, ◌≡◌, refl, List, [], ◌∷◌, some, true, if◌then◌else◌}
use ai_developer_copilot_pla.Text.{codes}
use ai_developer_copilot_pla.Exn.{Result, ok, raised, other}
use ai_developer_copilot_pla.Migrations.Env.{
  AlembicCall, configure, begin_transaction, run_migrations, end_transaction, file_config, Alembic,
  env,
}
use ai_developer_copilot_pla.Migrations.Transactions.{runs, ends, env-runs}

abbrev fails_running : List AlembicCall → AlembicCall → Result (Unit {0})
fails_running calls run_migrations = raised (other (codes "no such table"))
fails_running calls c = ok tt

abbrev failing : Alembic
failing = record {
  config_file_name = some (codes "alembic.ini");
  main_option = λ name. some (codes "postgresql://db/app");
  is_offline_mode = true;
  answer = fails_running;
}

env_test : env failing [] ≡ (
  raised (other (codes "no such table")),
  file_config (codes "alembic.ini")
      ∷ configure (some (codes "postgresql://db/app")) true
      ∷ begin_transaction
      ∷ run_migrations
      ∷ end_transaction true
      ∷ [],
)
unfolding env
env_test = refl

env-runs_example :
    (runs (env failing []).1 ≤ (if failing.is_offline_mode then 1 else 0))
    × (ends (env failing []).1 ≡ runs (env failing []).1)
env-runs_example = env-runs failing
