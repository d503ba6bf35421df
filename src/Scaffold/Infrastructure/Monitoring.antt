-- ===== src/Scaffold/Infrastructure/Monitoring.antt =====
-- The monitoring files that `build_infrastructure` of scripts/generate_scaffold.py writes.
use ai_developer_copilot_pla.Prelude.{List, [], ◌∷◌}
use ai_developer_copilot_pla.Text.{Text, codes}

unfoldable pub monitoring_files : List (Text × Text)
monitoring_files =
    (
      codes "infrastructure/monitoring/prometheus/prometheus.yaml",
      codes "# Prometheus configuration skeleton\n",
    )
    ∷ (
      codes "infrastructure/monitoring/prometheus/rules/backend-alerts.yaml",
      codes "# Backend alert rules\n",
    )
    ∷ (
      codes "infrastructure/monitoring/prometheus/rules/celery-alerts.yaml",
      codes "# Celery alert rules\n",
    )
    ∷ (
      codes "infrastructure/monitoring/prometheus/rules/agent-alerts.yaml",
      codes "# Agent alert rules\n",
    )
    ∷ (codes "infrastructure/monitoring/grafana/datasources/.gitkeep", [])
    ∷ (
      codes "infrastructure/monitoring/grafana/dashboards/backend-overview.json",
      codes "{\"title\": \"Backend Overview\", \"panels\": []}\n",
    )
    ∷ (
      codes "infrastructure/monitoring/grafana/dashboards/celery-workers.json",
      codes "{\"title\": \"Celery Workers\", \"panels\": []}\n",
    )
    ∷ (
      codes "infrastructure/monitoring/grafana/dashboards/agent-performance.json",
      codes "{\"title\": \"Agent Performance\", \"panels\": []}\n",
    )
    ∷ (
      codes "infrastructure/monitoring/grafana/dashboards/rag-retrieval.json",
      codes "{\"title\": \"RAG Retrieval\", \"panels\": []}\n",
    )
    ∷ (
      codes "infrastructure/monitoring/loki/loki-config.yaml",
      codes "# Loki configuration skeleton\n",
    )
    ∷ []
