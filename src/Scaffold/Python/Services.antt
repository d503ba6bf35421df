-- ===== src/Scaffold/Python/Services.antt =====
-- The application and infrastructure modules that `build_python_stubs` of scripts/generate_scaffold.py
-- writes.
use ai_developer_copilot_pla.Prelude.{List, [], ◌∷◌, ◌++◌}
use ai_developer_copilot_pla.Text.{Text, codes, replace}
use ai_developer_copilot_pla.Scaffold.Source.{py_module}

unfoldable pub app_services : List (Text × Text)
app_services =
    (codes "auth/auth_service.py", codes "Authentication use cases.")
    ∷ (codes "auth/rbac_service.py", codes "RBAC permission resolution.")
    ∷ (codes "auth/token_service.py", codes "JWT token lifecycle.")
    ∷ (codes "tenant/tenant_service.py", codes "Tenant lifecycle use cases.")
    ∷ (codes "tenant/tenant_context.py", codes "Tenant context propagation.")
    ∷ (codes "repository/repository_service.py", codes "Repository management use cases.")
    ∷ (codes "repository/ingestion_service.py", codes "Repository ingestion orchestration.")
    ∷ (codes "indexing/indexing_service.py", codes "Indexing orchestration.")
    ∷ (codes "indexing/chunking_service.py", codes "Language-aware chunking.")
    ∷ (codes "indexing/file_filter_service.py", codes "File filtering for indexing.")
    ∷ (codes "rag/rag_service.py", codes "RAG retrieval use cases.")
    ∷ (codes "rag/embedding_service.py", codes "Embedding orchestration.")
    ∷ (codes "rag/citation_service.py", codes "Citation assembly.")
    ∷ (codes "chat/chat_service.py", codes "Chat message handling.")
    ∷ (codes "chat/session_service.py", codes "Chat session management.")
    ∷ (codes "chat/scope_resolver.py", codes "Chat scope resolution.")
    ∷ (codes "analysis/analysis_orchestration_service.py", codes "Analysis job orchestration.")
    ∷ (codes "analysis/finding_service.py", codes "Finding management.")
    ∷ (codes "agents/agent_orchestration_service.py", codes "Agent dispatch orchestration.")
    ∷ (codes "github/github_integration_service.py", codes "GitHub integration use cases.")
    ∷ (codes "github/pr_review_service.py", codes "PR review orchestration.")
    ∷ (codes "dashboard/dashboard_service.py", codes "Dashboard analytics queries.")
    ∷ (codes "audit/audit_service.py", codes "Structured audit logging.")
    ∷ []

unfoldable pub service_stub : Text × Text → Text × Text
service_stub (path, doc) = (codes "backend/app/application/" ++ path, py_module doc [])

unfoldable pub infra_db : List (Text × Text)
infra_db =
    (codes "db/session.py", codes "Async SQLAlchemy session factory.")
    ∷ (codes "db/base.py", codes "SQLAlchemy declarative base.")
    ∷ []

unfoldable pub db_stub : Text × Text → Text × Text
db_stub (path, doc) = (codes "backend/app/infrastructure/" ++ path, py_module doc [])

unfoldable pub orm_models : List Text
orm_models =
    codes "auth_models"
    ∷ codes "tenant_models"
    ∷ codes "repository_models"
    ∷ codes "analysis_models"
    ∷ codes "rag_models"
    ∷ codes "chat_models"
    ∷ codes "github_models"
    ∷ codes "dashboard_models"
    ∷ codes "audit_models"
    ∷ []

unfoldable pub model_stub : Text → Text × Text
model_stub name = (
  codes "backend/app/infrastructure/db/models/" ++ (name ++ codes ".py"),
  py_module (codes "ORM models: " ++ (replace b'_' b' ' name ++ codes ".")) [],
)

unfoldable pub repo_impls : List Text
repo_impls =
    codes "tenant_repository"
    ∷ codes "user_repository"
    ∷ codes "repository_repository"
    ∷ codes "analysis_repository"
    ∷ codes "agent_run_repository"
    ∷ codes "finding_repository"
    ∷ codes "chat_repository"
    ∷ codes "audit_repository"
    ∷ codes "event_outbox_repository"
    ∷ []

unfoldable pub repository_stub : Text → Text × Text
repository_stub name = (
  codes "backend/app/infrastructure/db/repositories/" ++ (name ++ codes ".py"),
  py_module (codes "SQLAlchemy repository: " ++ (name ++ codes ".")) [],
)

unfoldable pub infra_other : List (Text × Text)
infra_other =
    (codes "vector/qdrant_client.py", codes "Qdrant async client factory.")
    ∷ (codes "vector/qdrant_chunk_repository.py", codes "IRAGChunkRepository implementation.")
    ∷ (codes "cache/redis_client.py", codes "Redis async client factory.")
    ∷ (codes "cache/cache_adapter.py", codes "Redis cache adapter.")
    ∷ (codes "storage/object_storage_adapter.py", codes "S3-compatible object storage adapter.")
    ∷ (codes "llm/llm_adapter.py", codes "LLM provider adapter.")
    ∷ (codes "llm/embedding_adapter.py", codes "Embedding provider adapter.")
    ∷ (codes "github/github_api_adapter.py", codes "GitHub REST API adapter.")
    ∷ (codes "github/github_app_auth.py", codes "GitHub App authentication.")
    ∷ (codes "events/event_publisher.py", codes "Transactional outbox event publisher.")
    ∷ (codes "tasks/celery_app.py", codes "Celery application factory.")
    ∷ (codes "tasks/celery_beat_schedule.py", codes "Celery Beat schedule.")
    ∷ (codes "tasks/indexing_tasks.py", codes "Indexing Celery tasks.")
    ∷ (codes "tasks/analysis_tasks.py", codes "Analysis Celery tasks.")
    ∷ (codes "tasks/agent_tasks.py", codes "Agent Celery tasks.")
    ∷ (codes "tasks/github_tasks.py", codes "GitHub Celery tasks.")
    ∷ (codes "tasks/maintenance_tasks.py", codes "Maintenance Celery tasks.")
    ∷ []

unfoldable pub infra_stub : Text × Text → Text × Text
infra_stub (path, doc) = (codes "backend/app/infrastructure/" ++ path, py_module doc [])
