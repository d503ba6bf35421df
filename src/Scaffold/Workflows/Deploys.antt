-- ===== src/Scaffold/Workflows/Deploys.antt =====
-- Texts of the workflows that `build_github_workflows` of scripts/generate_scaffold.py writes.
use ai_developer_copilot_pla.Prelude.{[], ◌∷◌}
use ai_developer_copilot_pla.Text.{Text}
use ai_developer_copilot_pla.Scaffold.Source.{lines}

unfoldable pub deploy_production_yml_text : Text
deploy_production_yml_text = lines (
    "name: Deploy Production" ∷ "" ∷ "on:" ∷ "  workflow_dispatch:" ∷ "" ∷ "jobs:" ∷ "  deploy:"
    ∷ "    runs-on: ubuntu-latest" ∷ "    environment: production" ∷ "    steps:"
    ∷ "      - uses: actions/checkout@v4" ∷ "      - name: Helm upgrade production"
    ∷ "        run: echo \"helm upgrade ai-copilot infrastructure/helm/ai-copilot -f infrastructure/helm/ai-copilot/values.production.yaml\""
    ∷ [])

unfoldable pub dependency_scan_yml_text : Text
dependency_scan_yml_text = lines (
    "name: Dependency Scan" ∷ "" ∷ "on:" ∷ "  schedule:" ∷ "    - cron: '0 6 * * 1'"
    ∷ "  workflow_dispatch:" ∷ "" ∷ "jobs:" ∷ "  scan:" ∷ "    runs-on: ubuntu-latest"
    ∷ "    steps:" ∷ "      - uses: actions/checkout@v4" ∷ "      - name: pip-audit"
    ∷ "        run: pip install pip-audit && pip-audit -r backend/pyproject.toml || true"
    ∷ "      - name: npm audit" ∷ "        working-directory: frontend"
    ∷ "        run: npm audit --audit-level=high || true" ∷ [])

unfoldable pub migration_check_yml_text : Text
migration_check_yml_text = lines (
    "name: Migration Check" ∷ "" ∷ "on:" ∷ "  pull_request:" ∷ "    paths:"
    ∷ "      - 'backend/alembic/**'" ∷ "" ∷ "jobs:" ∷ "  check:" ∷ "    runs-on: ubuntu-latest"
    ∷ "    steps:" ∷ "      - uses: actions/checkout@v4"
    ∷ "      - name: Validate Alembic migrations" ∷ "        working-directory: backend"
    ∷ "        run: echo \"alembic check\"" ∷ [])
