-- ===== src/Tasks/Celery.antt =====
-- `create_celery_app` of backend/app/infrastructure/tasks/celery_app.py: the configuration that it
-- gives to Celery. What Celery makes of it is not modelled here.
use ai_developer_copilot_pla.Prelude.{ℕ, Bool, true, List, [], ◌∷◌}
use ai_developer_copilot_pla.Text.{Text, codes}
use ai_developer_copilot_pla.Exec.{Exec, pure, ◌>>=◌}
use ai_developer_copilot_pla.Config.{Settings}
use ai_developer_copilot_pla.Process.{Process, Drivers, get_settings}

pub record CeleryApp : Type 0 where
  pub main : Text
  pub broker_url : Text
  pub result_backend : Text
  pub task_serializer : Text
  pub result_serializer : Text
  pub accept_content : List Text
  pub event_serializer : Text
  pub timezone : Text
  pub enable_utc : Bool
  -- patterns of task names with their queues, in order
  pub task_routes : List (Text × Text)
  pub task_acks_late : Bool
  pub task_reject_on_worker_lost : Bool
  pub task_track_started : Bool
  pub worker_prefetch_multiplier : ℕ
  pub result_expires : ℕ
  -- the names of the scheduled entries
  pub beat_schedule : List Text
  -- what is passed to `autodiscover_tasks`
  pub packages : List Text

unfoldable pub routes : List (Text × Text)
routes =
    (codes "app.infrastructure.tasks.indexing_tasks.*", codes "indexing_queue")
    ∷ (codes "app.infrastructure.tasks.analysis_tasks.*", codes "analysis_queue")
    ∷ (codes "app.infrastructure.tasks.agent_tasks.*", codes "agent_queue")
    ∷ (codes "app.infrastructure.tasks.github_tasks.*", codes "indexing_queue")
    ∷ (codes "app.infrastructure.tasks.maintenance_tasks.*", codes "analysis_queue")
    ∷ []

unfoldable pub task_packages : List Text
task_packages =
    codes "app.infrastructure.tasks.indexing_tasks"
    ∷ codes "app.infrastructure.tasks.analysis_tasks"
    ∷ codes "app.infrastructure.tasks.agent_tasks"
    ∷ codes "app.infrastructure.tasks.github_tasks"
    ∷ codes "app.infrastructure.tasks.maintenance_tasks"
    ∷ []

unfoldable pub celery_app : Settings → CeleryApp
celery_app settings = record {
  main = codes "ai_copilot";
  broker_url = settings.celery_broker_url;
  result_backend = settings.celery_result_backend;
  task_serializer = codes "json";
  result_serializer = codes "json";
  accept_content = codes "json" ∷ [];
  event_serializer = codes "json";
  timezone = codes "UTC";
  enable_utc = true;
  task_routes = routes;
  task_acks_late = true;
  task_reject_on_worker_lost = true;
  task_track_started = true;
  worker_prefetch_multiplier = 1;
  result_expires = 86400;
  beat_schedule = [];
  packages = task_packages;
}

module _ (d : Drivers) where
  unfoldable pub create_celery_app : Exec Process CeleryApp
  create_celery_app = do settings ← get_settings d; pure (celery_app settings)
