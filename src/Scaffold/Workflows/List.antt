-- ===== src/Scaffold/Workflows/List.antt =====
-- `build_github_workflows` of scripts/generate_scaffold.py: the workflows, in order.
use ai_developer_copilot_pla.Prelude.{List, [], ◌∷◌}
use ai_developer_copilot_pla.Text.{Text, codes}
use ai_developer_copilot_pla.Scaffold.Workflows.Checks.{
  ci_yml_text, build_yml_text, deploy_staging_yml_text,
}
use ai_developer_copilot_pla.Scaffold.Workflows.Deploys.{
  deploy_production_yml_text, dependency_scan_yml_text, migration_check_yml_text,
}

unfoldable pub github_workflows : List (Text × Text)
github_workflows =
    (codes ".github/workflows/ci.yml", ci_yml_text)
    ∷ (codes ".github/workflows/build.yml", build_yml_text)
    ∷ (codes ".github/workflows/deploy-staging.yml", deploy_staging_yml_text)
    ∷ (codes ".github/workflows/deploy-production.yml", deploy_production_yml_text)
    ∷ (codes ".github/workflows/dependency-scan.yml", dependency_scan_yml_text)
    ∷ (codes ".github/workflows/migration-check.yml", migration_check_yml_text)
    ∷ []
