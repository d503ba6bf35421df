-- ===== src/Migrations/Env.antt =====
-- The body of backend/alembic/env.py. What Alembic's `context` and `fileConfig` answer is a
-- parameter, and may depend on every call that was made before it.
use ai_developer_copilot_pla.Prelude.{
  List, [], ◌∷◌, ◌++◌, Option, none, some, Bool, true, false, if◌then◌else◌,
}
use ai_developer_copilot_pla.Text.{Text, codes}
use ai_developer_copilot_pla.Exn.{Result, ok, raised, not_implemented}
use ai_developer_copilot_pla.Exec.{Exec, pure, raise, ◌>>◌}

pub data AlembicCall : Type 0 where
  file_config : Text → AlembicCall
  -- `url` and `literal_binds`; `target_metadata` is always `None`
  configure : Option Text → Bool → AlembicCall
  begin_transaction : AlembicCall
  run_migrations : AlembicCall
  -- the end of the `with` block, and whether it is left by an exception
  end_transaction : Bool → AlembicCall

pub record Alembic : Type 0 where
  pub config_file_name : Option Text
  pub main_option : Text → Option Text
  pub is_offline_mode : Bool
  pub answer : List AlembicCall → AlembicCall → Result (Unit {0})

abbrev pub is_raised : Result (Unit {0}) → Bool
is_raised (ok done) = false
is_raised (raised e) = true

-- The result of a block whose end has the result that stands first.
abbrev pub block_result : Result (Unit {0}) → Result (Unit {0}) → Result (Unit {0})
block_result (ok done) r = r
block_result (raised e) r = raised e

module _ (a : Alembic) where
  abbrev pub call : AlembicCall → Exec (List AlembicCall) (Unit {0})
  call c calls = (a.answer calls c, calls ++ c ∷ [])

  abbrev pub end_block : Result (Unit {0}) × List AlembicCall → Result (Unit {0}) × List AlembicCall
  end_block (r, calls) =
      let (ending, after) = call (end_transaction (is_raised r)) calls in
      (block_result ending r, after)

  -- `with context.begin_transaction():`, which swallows no exception.
  abbrev pub in_transaction :
      Exec (List AlembicCall) (Unit {0}) → Exec (List AlembicCall) (Unit {0})
  in_transaction block = do call begin_transaction; λ calls. end_block (block calls)

  unfoldable pub run_migrations_offline : Exec (List AlembicCall) (Unit {0})
  run_migrations_offline = do
    call (configure (a.main_option (codes "sqlalchemy.url")) true)
    in_transaction (call run_migrations)

  unfoldable pub run_migrations_online : Exec (List AlembicCall) (Unit {0})
  run_migrations_online = raise (not_implemented (codes "Async migration runner wired in Phase 3"))

  abbrev configure_logging : Option Text → Exec (List AlembicCall) (Unit {0})
  configure_logging none = pure tt
  configure_logging (some name) = call (file_config name)

  unfoldable pub env : Exec (List AlembicCall) (Unit {0})
  unfolding run_migrations_offline run_migrations_online
  env = do
    configure_logging a.config_file_name
    if a.is_offline_mode then run_migrations_offline else run_migrations_online
