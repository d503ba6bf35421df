-- ===== src/Db/Engines.antt =====
-- `_make_engine`, `initialize_db` and `dispose_db` of backend/app/infrastructure/db/session.py.
use ai_developer_copilot_pla.Prelude.{ℕ, true, false, Option, none, some, ◌==◌, if◌then◌else◌}
use ai_developer_copilot_pla.Text.{Text}
use ai_developer_copilot_pla.Exec.{Exec, pure, modify, ◌>>=◌, ◌>>◌}
use ai_developer_copilot_pla.Process.{
  Process, SessionMaker, Drivers, ClientSpec, open_client, close_client, get_settings,
}

abbrev pub session_maker : ℕ → SessionMaker
session_maker engine = record { engine = engine; expire_on_commit = false; autoflush = false }

module _ (d : Drivers) where
  abbrev make_engine : Text → Exec Process ℕ
  make_engine url = open_client d (ClientSpec.engine url false true 5 10 0)

  unfoldable pub initialize_db : Exec Process (Unit {0})
  initialize_db = do
    settings ← get_settings d
    engine ← make_engine settings.database_url
    modify (λ p. record p {
      engine_write = some engine;
      engine_read = some engine;
      session_write = some (session_maker engine);
      session_read = some (session_maker engine);
    })

  abbrev pub dispose_write : Option ℕ → Exec Process (Unit {0})
  dispose_write none = pure tt
  dispose_write (some engine) = close_client d engine

  -- The read engine is disposed of only if it is another one.
  abbrev pub dispose_read : Option ℕ → Option ℕ → Exec Process (Unit {0})
  dispose_read none write = pure tt
  dispose_read (some engine) none = close_client d engine
  dispose_read (some engine) (some write) =
      if engine == write then pure tt else close_client d engine

  unfoldable pub dispose_db : Exec Process (Unit {0})
  dispose_db p =
      (do
        dispose_write p.engine_write
        dispose_read p.engine_read p.engine_write
        modify (λ p. record p {
          engine_write = none;
          engine_read = none;
          session_write = none;
          session_read = none;
        }))
        p
