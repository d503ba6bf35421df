-- ===== src/Db/Session.antt =====
-- `get_write_session` and `get_read_session` of backend/app/infrastructure/db/session.py.
-- SQLAlchemy's session is a parameter: its calls change a state and may raise. `close` is what the
-- end of `async with` does, whether the block ends by itself or by an exception.
use ai_developer_copilot_pla.Prelude.{Option, none, some, if◌then◌else◌}
use ai_developer_copilot_pla.Text.{codes}
use ai_developer_copilot_pla.Exn.{Exn, Result, ok, raised, assertion, is_exception}
use ai_developer_copilot_pla.Exec.{Exec, pure, raise, ◌>>=◌, ◌>>◌, try_except}
use ai_developer_copilot_pla.Process.{SessionMaker}

pub record SessionCalls (S : Type 0) : Type 0 where
  pub commit : Exec S (Unit {0})
  pub rollback : Exec S (Unit {0})
  pub close : Exec S (Unit {0})

module _ {S : Type 0} (session : SessionCalls S) where
  -- `async with session:`; what `close` raises takes the place of what the block did.
  abbrev closing_with : {A : Type 0} → Result A → Exec S A
  closing_with (ok a) = do session.close; pure a
  closing_with (raised e) = do session.close; raise e

  abbrev pub closing : {A : Type 0} → Exec S A → Exec S A
  closing block s = let (r, t) = block s in closing_with r t

  -- `except Exception: await session.rollback(); raise`.
  abbrev pub roll_back : {A : Type 0} → Exn → Exec S A
  roll_back e = if is_exception e then (do session.rollback; raise e) else raise e

  abbrev pub commit_after : {A : Type 0} → Exec S A → Exec S A
  commit_after block = do a ← block; session.commit; pure a

  -- The session as `async with get_write_session() as session: block` uses it.
  unfoldable pub write_session : {A : Type 0} → Exec S A → Exec S A
  write_session block = closing (try_except (commit_after block) roll_back)

  unfoldable pub read_session : {A : Type 0} → Exec S A → Exec S A
  read_session block = closing block

  abbrev not_initialized : {A : Type 0} → Exec S A
  not_initialized =
      raise
        (assertion (codes "Database not initialized. Call initialize_db() from the app lifespan."))

  unfoldable pub get_write_session : {A : Type 0} → Option SessionMaker → Exec S A → Exec S A
  unfolding write_session
  get_write_session none block = not_initialized
  get_write_session (some maker) block = write_session block

  unfoldable pub get_read_session : {A : Type 0} → Option SessionMaker → Exec S A → Exec S A
  unfolding read_session
  get_read_session none block = not_initialized
  get_read_session (some maker) block = read_session block
