-- ===== src/Scaffold/Layout.antt =====
-- `DIRS` and `INIT_PACKAGES` of scripts/generate_scaffold.py.
use ai_developer_copilot_pla.Prelude.{List, [], ◌∷◌}
use ai_developer_copilot_pla.Text.{Text, codes}

unfoldable pub dirs : List Text
dirs =
    codes "docs"
    ∷ codes "backend/alembic/versions"
    ∷ codes "backend/tests/unit/domain"
    ∷ codes "backend/tests/unit/application"
    ∷ codes "backend/tests/unit/agents"
    ∷ codes "backend/tests/integration/repositories"
    ∷ codes "backend/tests/integration/services"
    ∷ codes "backend/tests/integration/agents"
    ∷ codes "backend/tests/e2e/auth"
    ∷ codes "backend/tests/e2e/repositories"
    ∷ codes "backend/tests/e2e/chat"
    ∷ codes "backend/tests/e2e/analysis"
    ∷ codes "backend/app/domain/entities"
    ∷ codes "backend/app/domain/value_objects"
    ∷ codes "backend/app/domain/events"
    ∷ codes "backend/app/domain/interfaces"
    ∷ codes "backend/app/application/auth"
    ∷ codes "backend/app/application/tenant"
    ∷ codes "backend/app/application/repository"
    ∷ codes "backend/app/application/indexing"
    ∷ codes "backend/app/application/rag"
    ∷ codes "backend/app/application/chat"
    ∷ codes "backend/app/application/analysis"
    ∷ codes "backend/app/application/agents"
    ∷ codes "backend/app/application/github"
    ∷ codes "backend/app/application/dashboard"
    ∷ codes "backend/app/application/audit"
    ∷ codes "backend/app/infrastructure/db/models"
    ∷ codes "backend/app/infrastructure/db/repositories"
    ∷ codes "backend/app/infrastructure/vector"
    ∷ codes "backend/app/infrastructure/cache"
    ∷ codes "backend/app/infrastructure/storage"
    ∷ codes "backend/app/infrastructure/llm"
    ∷ codes "backend/app/infrastructure/github"
    ∷ codes "backend/app/infrastructure/events"
    ∷ codes "backend/app/infrastructure/tasks"
    ∷ codes "backend/app/interfaces/api/v1"
    ∷ codes "backend/app/interfaces/webhooks"
    ∷ codes "backend/app/interfaces/schemas"
    ∷ codes "backend/app/interfaces/middleware"
    ∷ codes "backend/app/agents/base"
    ∷ codes "backend/app/agents/shared"
    ∷ codes "backend/app/agents/orchestration"
    ∷ codes "backend/app/agents/architecture"
    ∷ codes "backend/app/agents/code_review"
    ∷ codes "backend/app/agents/bug_detection"
    ∷ codes "backend/app/agents/security"
    ∷ codes "backend/app/agents/documentation"
    ∷ codes "backend/app/agents/test_generation"
    ∷ codes "backend/app/agents/issue_generation"
    ∷ codes "backend/app/agents/refactoring"
    ∷ codes "frontend/src/router/guards"
    ∷ codes "frontend/src/router/routes"
    ∷ codes "frontend/src/stores"
    ∷ codes "frontend/src/api"
    ∷ codes "frontend/src/types"
    ∷ codes "frontend/src/composables"
    ∷ codes "frontend/src/modules/auth/views"
    ∷ codes "frontend/src/modules/auth/components"
    ∷ codes "frontend/src/modules/repository/views"
    ∷ codes "frontend/src/modules/repository/components"
    ∷ codes "frontend/src/modules/chat/views"
    ∷ codes "frontend/src/modules/chat/components"
    ∷ codes "frontend/src/modules/analysis/views"
    ∷ codes "frontend/src/modules/analysis/components"
    ∷ codes "frontend/src/modules/dashboard/views"
    ∷ codes "frontend/src/modules/dashboard/components"
    ∷ codes "frontend/src/modules/settings/views"
    ∷ codes "frontend/src/modules/settings/components"
    ∷ codes "frontend/src/shared/components"
    ∷ codes "frontend/src/shared/icons"
    ∷ codes "docker/nginx/conf.d"
    ∷ codes "infrastructure/k8s/namespaces"
    ∷ codes "infrastructure/k8s/deployments"
    ∷ codes "infrastructure/k8s/services"
    ∷ codes "infrastructure/k8s/configmaps"
    ∷ codes "infrastructure/k8s/hpa"
    ∷ codes "infrastructure/k8s/ingress"
    ∷ codes "infrastructure/helm/ai-copilot/templates"
    ∷ codes "infrastructure/terraform/modules/networking"
    ∷ codes "infrastructure/terraform/modules/database"
    ∷ codes "infrastructure/terraform/modules/redis"
    ∷ codes "infrastructure/terraform/modules/qdrant"
    ∷ codes "infrastructure/terraform/modules/storage"
    ∷ codes "infrastructure/terraform/modules/container_registry"
    ∷ codes "infrastructure/terraform/modules/secrets"
    ∷ codes "infrastructure/terraform/envs/staging"
    ∷ codes "infrastructure/terraform/envs/production"
    ∷ codes "infrastructure/monitoring/prometheus/rules"
    ∷ codes "infrastructure/monitoring/grafana/datasources"
    ∷ codes "infrastructure/monitoring/grafana/dashboards"
    ∷ codes "infrastructure/monitoring/loki"
    ∷ codes ".github/workflows"
    ∷ []

unfoldable pub init_packages : List Text
init_packages =
    codes "backend/app"
    ∷ codes "backend/app/domain"
    ∷ codes "backend/app/domain/entities"
    ∷ codes "backend/app/domain/value_objects"
    ∷ codes "backend/app/domain/events"
    ∷ codes "backend/app/domain/interfaces"
    ∷ codes "backend/app/application"
    ∷ codes "backend/app/application/auth"
    ∷ codes "backend/app/application/tenant"
    ∷ codes "backend/app/application/repository"
    ∷ codes "backend/app/application/indexing"
    ∷ codes "backend/app/application/rag"
    ∷ codes "backend/app/application/chat"
    ∷ codes "backend/app/application/analysis"
    ∷ codes "backend/app/application/agents"
    ∷ codes "backend/app/application/github"
    ∷ codes "backend/app/application/dashboard"
    ∷ codes "backend/app/application/audit"
    ∷ codes "backend/app/infrastructure"
    ∷ codes "backend/app/infrastructure/db"
    ∷ codes "backend/app/infrastructure/db/models"
    ∷ codes "backend/app/infrastructure/db/repositories"
    ∷ codes "backend/app/infrastructure/vector"
    ∷ codes "backend/app/infrastructure/cache"
    ∷ codes "backend/app/infrastructure/storage"
    ∷ codes "backend/app/infrastructure/llm"
    ∷ codes "backend/app/infrastructure/github"
    ∷ codes "backend/app/infrastructure/events"
    ∷ codes "backend/app/infrastructure/tasks"
    ∷ codes "backend/app/interfaces"
    ∷ codes "backend/app/interfaces/api"
    ∷ codes "backend/app/interfaces/api/v1"
    ∷ codes "backend/app/interfaces/webhooks"
    ∷ codes "backend/app/interfaces/schemas"
    ∷ codes "backend/app/interfaces/middleware"
    ∷ codes "backend/app/agents"
    ∷ codes "backend/app/agents/base"
    ∷ codes "backend/app/agents/shared"
    ∷ codes "backend/app/agents/orchestration"
    ∷ codes "backend/app/agents/architecture"
    ∷ codes "backend/app/agents/code_review"
    ∷ codes "backend/app/agents/bug_detection"
    ∷ codes "backend/app/agents/security"
    ∷ codes "backend/app/agents/documentation"
    ∷ codes "backend/app/agents/test_generation"
    ∷ codes "backend/app/agents/issue_generation"
    ∷ codes "backend/app/agents/refactoring"
    ∷ []
