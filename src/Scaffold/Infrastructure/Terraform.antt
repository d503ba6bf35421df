-- ===== src/Scaffold/Infrastructure/Terraform.antt =====
-- The Terraform files that `build_infrastructure` of scripts/generate_scaffold.py writes.
use ai_developer_copilot_pla.Prelude.{List, [], ◌∷◌, ◌++◌}
use ai_developer_copilot_pla.Text.{Text, codes}
use ai_developer_copilot_pla.Scaffold.Source.{lines}

unfoldable pub main_tf_text : Text
main_tf_text =
    lines
      ("# Terraform root module" ∷ "terraform {" ∷ "  required_version = \">= 1.6.0\"" ∷ "}" ∷ [])

unfoldable pub backend_tf_text : Text
backend_tf_text =
    lines ("# Terraform state backend" ∷ "# terraform {" ∷ "#   backend \"s3\" {}" ∷ "# }" ∷ [])

unfoldable pub terraform_files : List (Text × Text)
terraform_files =
    (codes "infrastructure/terraform/main.tf", main_tf_text)
    ∷ (codes "infrastructure/terraform/variables.tf", codes "# Terraform variables\n")
    ∷ (codes "infrastructure/terraform/outputs.tf", codes "# Terraform outputs\n")
    ∷ (codes "infrastructure/terraform/backend.tf", backend_tf_text)
    ∷ []

unfoldable pub tf_modules : List Text
tf_modules =
    codes "networking"
    ∷ codes "database"
    ∷ codes "redis"
    ∷ codes "qdrant"
    ∷ codes "storage"
    ∷ codes "container_registry"
    ∷ codes "secrets"
    ∷ []

unfoldable pub tf_module : Text → List (Text × Text)
tf_module m =
    (
      codes "infrastructure/terraform/modules/" ++ (m ++ codes "/main.tf"),
      codes "# Module: " ++ (m ++ codes "\n"),
    )
    ∷ (codes "infrastructure/terraform/modules/" ++ (m ++ codes "/variables.tf"), [])
    ∷ (codes "infrastructure/terraform/modules/" ++ (m ++ codes "/outputs.tf"), [])
    ∷ []

unfoldable pub terraform_envs : List (Text × Text)
terraform_envs =
    (codes "infrastructure/terraform/envs/staging/main.tf", codes "# Staging environment\n")
    ∷ (codes "infrastructure/terraform/envs/production/main.tf", codes "# Production environment\n")
    ∷ []
