-- ===== src/Config.antt =====
-- backend/app/config.py: the settings and their defaults. What pydantic reads from the environment
-- and the .env file is a parameter: the required fields, and each tunable that is given there.
use mathlib.Core.Option.{get_or}
use ai_developer_copilot_pla.Prelude.{Option, ℤ, pos}
use ai_developer_copilot_pla.Text.{Text, codes}

pub record Required : Type 0 where
  pub database_url : Text
  pub database_direct_url : Text
  pub redis_url : Text
  pub celery_broker_url : Text
  pub celery_result_backend : Text
  pub qdrant_url : Text
  pub object_storage_endpoint_url : Text
  pub object_storage_bucket : Text
  pub object_storage_access_key : Text
  pub object_storage_secret_key : Text
  pub llm_base_url : Text
  pub llm_api_key : Text
  pub embedding_base_url : Text
  pub embedding_api_key : Text
  pub jwt_secret_key : Text

pub record Tunables : Type 0 where
  pub app_name : Option Text
  pub app_env : Option Text
  pub api_v1_prefix : Option Text
  pub qdrant_api_key : Option Text
  pub object_storage_region : Option Text
  pub llm_model : Option Text
  pub llm_timeout_seconds : Option ℤ
  pub llm_max_retries : Option ℤ
  pub embedding_model : Option Text
  pub embedding_batch_size : Option ℤ
  pub jwt_algorithm : Option Text
  pub access_token_expire_minutes : Option ℤ
  pub refresh_token_expire_days : Option ℤ

pub record Settings : Type 0 where
  pub app_name : Text
  pub app_env : Text
  pub api_v1_prefix : Text
  pub database_url : Text
  pub database_direct_url : Text
  pub redis_url : Text
  pub celery_broker_url : Text
  pub celery_result_backend : Text
  pub qdrant_url : Text
  pub qdrant_api_key : Option Text
  pub object_storage_endpoint_url : Text
  pub object_storage_bucket : Text
  pub object_storage_access_key : Text
  pub object_storage_secret_key : Text
  pub object_storage_region : Text
  pub llm_base_url : Text
  pub llm_api_key : Text
  pub llm_model : Text
  pub llm_timeout_seconds : ℤ
  pub llm_max_retries : ℤ
  pub embedding_base_url : Text
  pub embedding_api_key : Text
  pub embedding_model : Text
  pub embedding_batch_size : ℤ
  pub jwt_secret_key : Text
  pub jwt_algorithm : Text
  pub access_token_expire_minutes : ℤ
  pub refresh_token_expire_days : ℤ

-- `Settings()` once the environment has been read.
unfoldable pub settings_of : Required → Tunables → Settings
settings_of r t = record {
  app_name = get_or t.app_name (codes "AI Developer Copilot Platform");
  app_env = get_or t.app_env (codes "development");
  api_v1_prefix = get_or t.api_v1_prefix (codes "/api/v1");
  database_url = r.database_url;
  database_direct_url = r.database_direct_url;
  redis_url = r.redis_url;
  celery_broker_url = r.celery_broker_url;
  celery_result_backend = r.celery_result_backend;
  qdrant_url = r.qdrant_url;
  qdrant_api_key = t.qdrant_api_key;
  object_storage_endpoint_url = r.object_storage_endpoint_url;
  object_storage_bucket = r.object_storage_bucket;
  object_storage_access_key = r.object_storage_access_key;
  object_storage_secret_key = r.object_storage_secret_key;
  object_storage_region = get_or t.object_storage_region (codes "us-east-1");
  llm_base_url = r.llm_base_url;
  llm_api_key = r.llm_api_key;
  llm_model = get_or t.llm_model (codes "gpt-4o");
  llm_timeout_seconds = get_or t.llm_timeout_seconds (pos 60);
  llm_max_retries = get_or t.llm_max_retries (pos 3);
  embedding_base_url = r.embedding_base_url;
  embedding_api_key = r.embedding_api_key;
  embedding_model = get_or t.embedding_model (codes "text-embedding-3-large");
  embedding_batch_size = get_or t.embedding_batch_size (pos 512);
  jwt_secret_key = r.jwt_secret_key;
  jwt_algorithm = get_or t.jwt_algorithm (codes "HS256");
  access_token_expire_minutes = get_or t.access_token_expire_minutes (pos 15);
  refresh_token_expire_days = get_or t.refresh_token_expire_days (pos 7);
}
