-- ===== src/Scaffold/Frontend/List.antt =====
-- `build_frontend` of scripts/generate_scaffold.py: every file that it writes, in order.
use ai_developer_copilot_pla.Prelude.{List, [], ◌∷◌, map}
use ai_developer_copilot_pla.Text.{Text, codes}
use mathlib.Core.List.{flatten}
use ai_developer_copilot_pla.Scaffold.Frontend.Config.{
  index_html_text, package_json_text, tsconfig_json_text, vite_config_ts_text,
  tailwind_config_ts_text, postcss_config_js_text, frontend_dockerfile_text,
}
use ai_developer_copilot_pla.Scaffold.Frontend.App.{
  main_ts_text, app_vue_text, main_css_text, index_ts_text,
}
use ai_developer_copilot_pla.Scaffold.Frontend.Typescript.{
  route_files, route_file, stores, store_file, apis, api_file, types, types_file, composables,
  composable_file,
}
use ai_developer_copilot_pla.Scaffold.Frontend.Views.{
  module_views, view_files, module_components, component_files, shared_components, shared_file,
}

unfoldable pub frontend_frame : List (Text × Text)
frontend_frame =
    (codes "frontend/index.html", index_html_text)
    ∷ (codes "frontend/package.json", package_json_text)
    ∷ (codes "frontend/tsconfig.json", tsconfig_json_text)
    ∷ (codes "frontend/vite.config.ts", vite_config_ts_text)
    ∷ (codes "frontend/tailwind.config.ts", tailwind_config_ts_text)
    ∷ (codes "frontend/postcss.config.js", postcss_config_js_text)
    ∷ (codes "frontend/Dockerfile", frontend_dockerfile_text)
    ∷ (codes "frontend/.env.example", codes "VITE_API_BASE_URL=http://localhost:8000/api/v1\n")
    ∷ (codes "frontend/src/main.ts", main_ts_text)
    ∷ (codes "frontend/src/App.vue", app_vue_text)
    ∷ (codes "frontend/src/assets/main.css", main_css_text)
    ∷ (codes "frontend/src/router/index.ts", index_ts_text)
    ∷ (
      codes "frontend/src/router/guards/auth.guard.ts",
      codes "// Auth navigation guard — implemented in Phase 4b\n",
    )
    ∷ (
      codes "frontend/src/router/guards/rbac.guard.ts",
      codes "// RBAC navigation guard — implemented in Phase 4b\n",
    )
    ∷ []

unfoldable pub frontend_files : List (Text × Text)
unfolding flatten frontend_frame route_files route_file stores store_file apis api_file types
    types_file composables composable_file module_views view_files module_components component_files
    shared_components shared_file
frontend_files = flatten (
    frontend_frame
    ∷ map route_file route_files
    ∷ map store_file stores
    ∷ map api_file apis
    ∷ map types_file types
    ∷ map composable_file composables
    ∷ flatten (map view_files module_views)
    ∷ flatten (map component_files module_components)
    ∷ map shared_file shared_components
    ∷ ((codes "frontend/src/shared/icons/.gitkeep", []) ∷ [])
    ∷ [])
