-- ===== src/Scaffold/Infrastructure/Helm.antt =====
-- The Helm chart that `build_infrastructure` of scripts/generate_scaffold.py writes.
use ai_developer_copilot_pla.Prelude.{List, [], ◌∷◌, ◌++◌}
use ai_developer_copilot_pla.Text.{Text, codes}
use ai_developer_copilot_pla.Scaffold.Source.{lines}

unfoldable pub chart_yaml_text : Text
chart_yaml_text = lines (
    "apiVersion: v2" ∷ "name: ai-copilot"
    ∷ "description: AI-Powered Developer Copilot Platform Helm chart" ∷ "type: application"
    ∷ "version: 0.1.0" ∷ "appVersion: \"0.1.0\"" ∷ [])

unfoldable pub values_yaml_text : Text
values_yaml_text = lines (
    "replicaCount:" ∷ "  backend: 2" ∷ "  celeryIndexing: 2" ∷ "  celeryAnalysis: 2"
    ∷ "  celeryAgents: 3" ∷ "" ∷ "image:" ∷ "  backend:" ∷ "    repository: ai-copilot-backend"
    ∷ "    tag: latest" ∷ "  frontend:" ∷ "    repository: ai-copilot-frontend" ∷ "    tag: latest"
    ∷ "" ∷ "ingress:" ∷ "  enabled: true" ∷ "  host: copilot.local" ∷ "" ∷ "resources: {}" ∷ [])

unfoldable pub values_staging_yaml_text : Text
values_staging_yaml_text = lines ("# Staging overrides" ∷ "replicaCount:" ∷ "  backend: 1" ∷ [])

unfoldable pub values_production_yaml_text : Text
values_production_yaml_text =
    lines ("# Production overrides" ∷ "replicaCount:" ∷ "  backend: 3" ∷ [])

unfoldable pub helm_files : List (Text × Text)
helm_files =
    (codes "infrastructure/helm/ai-copilot/Chart.yaml", chart_yaml_text)
    ∷ (codes "infrastructure/helm/ai-copilot/values.yaml", values_yaml_text)
    ∷ (codes "infrastructure/helm/ai-copilot/values.staging.yaml", values_staging_yaml_text)
    ∷ (codes "infrastructure/helm/ai-copilot/values.production.yaml", values_production_yaml_text)
    ∷ []

unfoldable pub helm_templates : List Text
helm_templates =
    codes "deployment-backend.yaml"
    ∷ codes "deployment-celery-indexing.yaml"
    ∷ codes "deployment-celery-analysis.yaml"
    ∷ codes "deployment-celery-agents.yaml"
    ∷ codes "deployment-celery-beat.yaml"
    ∷ codes "service.yaml"
    ∷ codes "hpa.yaml"
    ∷ codes "ingress.yaml"
    ∷ codes "configmap.yaml"
    ∷ codes "serviceaccount.yaml"
    ∷ []

unfoldable pub helm_template : Text → Text × Text
helm_template t = (
  codes "infrastructure/helm/ai-copilot/templates/" ++ t,
  codes "# Helm template: " ++ (t ++ codes "\n"),
)
