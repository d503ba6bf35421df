-- ===== src/App/Lifespan.antt =====
-- `lifespan` of backend/app/main.py, without its log lines.
use ai_developer_copilot_pla.Exec.{Exec, ◌>>◌}
use ai_developer_copilot_pla.Process.{Process, Drivers}
use ai_developer_copilot_pla.Db.Engines.{initialize_db, dispose_db}
use ai_developer_copilot_pla.Cache.Client.{initialize_redis, dispose_redis}
use ai_developer_copilot_pla.Vector.Client.{initialize_qdrant, dispose_qdrant}
use ai_developer_copilot_pla.Storage.Client.{initialize_storage}
use ai_developer_copilot_pla.Llm.Client.{initialize_llm, dispose_llm}
use ai_developer_copilot_pla.Embedding.Client.{initialize_embedding, dispose_embedding}

module _ (d : Drivers) where
  -- What stands before the `yield`.
  unfoldable pub startup : Exec Process (Unit {0})
  startup = do
    initialize_db d
    initialize_redis d
    initialize_qdrant d
    initialize_storage d
    initialize_llm d
    initialize_embedding d

  -- What stands behind it.
  unfoldable pub shutdown : Exec Process (Unit {0})
  shutdown = do dispose_embedding d; dispose_llm d; dispose_qdrant d; dispose_redis d; dispose_db d

  -- The application runs at the `yield`; what it raises is raised there.
  unfoldable pub lifespan : Exec Process (Unit {0}) → Exec Process (Unit {0})
  lifespan application = do startup; application; shutdown
