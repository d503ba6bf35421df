-- ===== src/Scaffold/Infrastructure/Kubernetes.antt =====
-- The Kubernetes files that `build_infrastructure` of scripts/generate_scaffold.py writes.
use ai_developer_copilot_pla.Prelude.{List, [], ◌∷◌, ◌++◌}
use ai_developer_copilot_pla.Text.{Text, codes}
use ai_developer_copilot_pla.Scaffold.Source.{lines}

unfoldable pub staging_yaml_text : Text
staging_yaml_text =
    lines ("apiVersion: v1" ∷ "kind: Namespace" ∷ "metadata:" ∷ "  name: ai-copilot-staging" ∷ [])

unfoldable pub production_yaml_text : Text
production_yaml_text =
    lines
      ("apiVersion: v1" ∷ "kind: Namespace" ∷ "metadata:" ∷ "  name: ai-copilot-production" ∷ [])

unfoldable pub backend_yaml_text : Text
backend_yaml_text = lines (
    "apiVersion: apps/v1" ∷ "kind: Deployment" ∷ "metadata:" ∷ "  name: backend" ∷ "  labels:"
    ∷ "    app: backend" ∷ "spec:" ∷ "  replicas: 2" ∷ "  selector:" ∷ "    matchLabels:"
    ∷ "      app: backend" ∷ "  template:" ∷ "    metadata:" ∷ "      labels:"
    ∷ "        app: backend" ∷ "    spec:" ∷ "      containers:" ∷ "        - name: backend"
    ∷ "          image: ai-copilot-backend:latest" ∷ "          ports:"
    ∷ "            - containerPort: 8000" ∷ [])

unfoldable pub backend_service_yaml_text : Text
backend_service_yaml_text = lines (
    "apiVersion: v1" ∷ "kind: Service" ∷ "metadata:" ∷ "  name: backend-service" ∷ "spec:"
    ∷ "  selector:" ∷ "    app: backend" ∷ "  ports:" ∷ "    - port: 8000"
    ∷ "      targetPort: 8000" ∷ [])

unfoldable pub app_config_yaml_text : Text
app_config_yaml_text =
    lines
      ("apiVersion: v1" ∷ "kind: ConfigMap" ∷ "metadata:" ∷ "  name: app-config" ∷ "data: {}" ∷ [])

unfoldable pub k8s_files : List (Text × Text)
k8s_files =
    (codes "k8s/namespaces/staging.yaml", staging_yaml_text)
    ∷ (codes "k8s/namespaces/production.yaml", production_yaml_text)
    ∷ (codes "k8s/deployments/backend.yaml", backend_yaml_text)
    ∷ (
      codes "k8s/deployments/celery-indexing-worker.yaml",
      codes "# Celery indexing worker deployment skeleton\n",
    )
    ∷ (
      codes "k8s/deployments/celery-analysis-worker.yaml",
      codes "# Celery analysis worker deployment skeleton\n",
    )
    ∷ (
      codes "k8s/deployments/celery-agent-worker.yaml",
      codes "# Celery agent worker deployment skeleton\n",
    )
    ∷ (codes "k8s/deployments/celery-beat.yaml", codes "# Celery beat deployment skeleton\n")
    ∷ (codes "k8s/deployments/nginx.yaml", codes "# NGINX deployment skeleton\n")
    ∷ (codes "k8s/services/backend-service.yaml", backend_service_yaml_text)
    ∷ (codes "k8s/services/nginx-service.yaml", codes "# NGINX service skeleton\n")
    ∷ (codes "k8s/configmaps/app-config.yaml", app_config_yaml_text)
    ∷ (codes "k8s/hpa/backend-hpa.yaml", codes "# Backend HPA skeleton\n")
    ∷ (codes "k8s/hpa/celery-indexing-hpa.yaml", codes "# Celery indexing HPA skeleton\n")
    ∷ (codes "k8s/hpa/celery-analysis-hpa.yaml", codes "# Celery analysis HPA skeleton\n")
    ∷ (codes "k8s/hpa/celery-agent-hpa.yaml", codes "# Celery agent HPA skeleton\n")
    ∷ (codes "k8s/ingress/staging-ingress.yaml", codes "# Staging ingress skeleton\n")
    ∷ (codes "k8s/ingress/production-ingress.yaml", codes "# Production ingress skeleton\n")
    ∷ []

unfoldable pub k8s_file : Text × Text → Text × Text
k8s_file (path, content) = (codes "infrastructure/" ++ path, content)
