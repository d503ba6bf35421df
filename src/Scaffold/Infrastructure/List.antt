-- ===== src/Scaffold/Infrastructure/List.antt =====
-- `build_infrastructure` of scripts/generate_scaffold.py: every file that it writes, in order.
use ai_developer_copilot_pla.Prelude.{List, [], ◌∷◌, map}
use ai_developer_copilot_pla.Text.{Text}
use mathlib.Core.List.{flatten}
use ai_developer_copilot_pla.Scaffold.Infrastructure.Kubernetes.{k8s_files, k8s_file}
use ai_developer_copilot_pla.Scaffold.Infrastructure.Helm.{
  helm_files, helm_templates, helm_template,
}
use ai_developer_copilot_pla.Scaffold.Infrastructure.Terraform.{
  terraform_files, tf_modules, tf_module, terraform_envs,
}
use ai_developer_copilot_pla.Scaffold.Infrastructure.Monitoring.{monitoring_files}

unfoldable pub infrastructure_files : List (Text × Text)
unfolding flatten k8s_files k8s_file helm_files helm_templates helm_template terraform_files
    tf_modules tf_module terraform_envs monitoring_files
infrastructure_files = flatten (
    map k8s_file k8s_files
    ∷ helm_files
    ∷ map helm_template helm_templates
    ∷ terraform_files
    ∷ flatten (map tf_module tf_modules)
    ∷ terraform_envs
    ∷ monitoring_files
    ∷ [])
