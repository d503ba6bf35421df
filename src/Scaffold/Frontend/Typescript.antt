-- ===== src/Scaffold/Frontend/Typescript.antt =====
-- The TypeScript modules that the loops of `build_frontend` of scripts/generate_scaffold.py write.
use ai_developer_copilot_pla.Prelude.{List, [], ◌∷◌, ◌++◌, if◌then◌else◌}
use ai_developer_copilot_pla.Text.{Text, codes, eq_text}
use ai_developer_copilot_pla.Scaffold.Source.{lines, concat, capitalize}

unfoldable pub route_files : List (Text × Text)
route_files =
    (codes "auth.routes.ts", codes "auth")
    ∷ (codes "repository.routes.ts", codes "repository")
    ∷ (codes "chat.routes.ts", codes "chat")
    ∷ (codes "analysis.routes.ts", codes "analysis")
    ∷ (codes "dashboard.routes.ts", codes "dashboard")
    ∷ []

unfoldable pub route_file : Text × Text → Text × Text
unfolding concat
route_file (fname, module_name) = (
  codes "frontend/src/router/routes/" ++ fname,
  concat (
      codes "import type { RouteRecordRaw } from 'vue-router'\n\n"
      ∷ codes "export const "
      ∷ module_name
      ∷ codes "Routes: RouteRecordRaw[] = []\n"
      ∷ []),
)

unfoldable pub stores : List Text
stores =
    codes "auth"
    ∷ codes "tenant"
    ∷ codes "repository"
    ∷ codes "analysis"
    ∷ codes "chat"
    ∷ codes "dashboard"
    ∷ codes "ui"
    ∷ []

unfoldable pub store_file : Text → Text × Text
store_file s = (
  codes "frontend/src/stores/" ++ (s ++ codes ".store.ts"),
  concat (
      codes "import { defineStore } from 'pinia'\n\nexport const use"
      ∷ capitalize s
      ∷ codes "Store = defineStore('"
      ∷ s
      ∷ codes "', {\n  state: () => ({}),\n})\n"
      ∷ []),
)

unfoldable pub apis : List Text
apis =
    codes "client"
    ∷ codes "auth"
    ∷ codes "repository"
    ∷ codes "analysis"
    ∷ codes "agent"
    ∷ codes "finding"
    ∷ codes "chat"
    ∷ codes "rag"
    ∷ codes "github"
    ∷ codes "dashboard"
    ∷ []

unfoldable pub client_text : Text
client_text = lines (
    "import axios from 'axios'" ∷ "" ∷ "const apiClient = axios.create({"
    ∷ "  baseURL: import.meta.env.VITE_API_BASE_URL ?? '/api/v1',"
    ∷ "  headers: { 'Content-Type': 'application/json' }," ∷ "})" ∷ "" ∷ "export default apiClient"
    ∷ [])

unfoldable pub api_file : Text → Text × Text
api_file a =
    if eq_text a (codes "client") then (codes "frontend/src/api/client.ts", client_text) else (
      codes "frontend/src/api/" ++ (a ++ codes ".api.ts"),
      codes "// " ++ (a ++ codes " API client — implemented in Phase 4b\n"),
    )

unfoldable pub types : List Text
types =
    codes "auth"
    ∷ codes "repository"
    ∷ codes "analysis"
    ∷ codes "agent"
    ∷ codes "finding"
    ∷ codes "chat"
    ∷ codes "dashboard"
    ∷ codes "common"
    ∷ []

unfoldable pub types_file : Text → Text × Text
types_file t = (
  codes "frontend/src/types/" ++ (t ++ codes ".types.ts"),
  codes "// " ++ (t ++ codes " TypeScript types\n"),
)

unfoldable pub composables : List Text
composables =
    codes "useSSE"
    ∷ codes "usePermission"
    ∷ codes "usePagination"
    ∷ codes "useJobPoller"
    ∷ codes "useRepositoryScope"
    ∷ []

unfoldable pub composable_file : Text → Text × Text
composable_file c = (
  codes "frontend/src/composables/" ++ (c ++ codes ".ts"),
  codes "// " ++ (c ++ codes " composable\n"),
)
