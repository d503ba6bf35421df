-- ===== src/Scaffold/Workflows/Checks.antt =====
-- Texts of the workflows that `build_github_workflows` of scripts/generate_scaffold.py writes.
use ai_developer_copilot_pla.Prelude.{[], ◌∷◌}
use ai_developer_copilot_pla.Text.{Text}
use ai_developer_copilot_pla.Scaffold.Source.{lines}

unfoldable pub ci_yml_text : Text
ci_yml_text = lines (
    "name: CI" ∷ "" ∷ "on:" ∷ "  pull_request:" ∷ "    branches: [main, develop]" ∷ "" ∷ "jobs:"
    ∷ "  backend:" ∷ "    runs-on: ubuntu-latest" ∷ "    steps:"
    ∷ "      - uses: actions/checkout@v4" ∷ "      - uses: actions/setup-python@v5"
    ∷ "        with:" ∷ "          python-version: '3.12'" ∷ "      - name: Install dependencies"
    ∷ "        working-directory: backend" ∷ "        run: pip install -e \".[dev]\""
    ∷ "      - name: Ruff lint" ∷ "        working-directory: backend" ∷ "        run: ruff check ."
    ∷ "      - name: MyPy" ∷ "        working-directory: backend" ∷ "        run: mypy app"
    ∷ "      - name: Unit tests" ∷ "        working-directory: backend"
    ∷ "        run: pytest tests/unit -v" ∷ "" ∷ "  frontend:" ∷ "    runs-on: ubuntu-latest"
    ∷ "    steps:" ∷ "      - uses: actions/checkout@v4" ∷ "      - uses: actions/setup-node@v4"
    ∷ "        with:" ∷ "          node-version: '22'" ∷ "      - name: Install and type-check"
    ∷ "        working-directory: frontend" ∷ "        run: |" ∷ "          npm ci"
    ∷ "          npm run type-check" ∷ [])

unfoldable pub build_yml_text : Text
build_yml_text = lines (
    "name: Build" ∷ "" ∷ "on:" ∷ "  push:" ∷ "    branches: [main]" ∷ "" ∷ "jobs:" ∷ "  build:"
    ∷ "    runs-on: ubuntu-latest" ∷ "    steps:" ∷ "      - uses: actions/checkout@v4"
    ∷ "      - name: Build backend image"
    ∷ "        run: docker build -t ai-copilot-backend:latest ./backend"
    ∷ "      - name: Build frontend image"
    ∷ "        run: docker build -t ai-copilot-frontend:latest ./frontend" ∷ [])

unfoldable pub deploy_staging_yml_text : Text
deploy_staging_yml_text = lines (
    "name: Deploy Staging" ∷ "" ∷ "on:" ∷ "  workflow_run:" ∷ "    workflows: [Build]"
    ∷ "    types: [completed]" ∷ "    branches: [main]" ∷ "" ∷ "jobs:" ∷ "  deploy:"
    ∷ "    if: ${{ github.event.workflow_run.conclusion == 'success' }}"
    ∷ "    runs-on: ubuntu-latest" ∷ "    environment: staging" ∷ "    steps:"
    ∷ "      - uses: actions/checkout@v4" ∷ "      - name: Helm upgrade staging"
    ∷ "        run: echo \"helm upgrade ai-copilot infrastructure/helm/ai-copilot -f infrastructure/helm/ai-copilot/values.staging.yaml\""
    ∷ [])
