-- ===== src/Scaffold/Frontend/Views.antt =====
-- The components that the loops of `build_frontend` of scripts/generate_scaffold.py write.
use ai_developer_copilot_pla.Prelude.{List, [], ◌∷◌, ◌++◌, map}
use ai_developer_copilot_pla.Text.{Text, codes}
use ai_developer_copilot_pla.Scaffold.Source.{lines, concat}

unfoldable pub vue_shell : Text
vue_shell = lines (
    "<template>" ∷ "  <div />" ∷ "</template>" ∷ "" ∷ "<script setup lang=\"ts\">" ∷ "</script>"
    ∷ [])

unfoldable pub module_views : List (Text × List Text)
module_views =
    (codes "auth", codes "LoginView" ∷ codes "RegisterView" ∷ codes "GitHubCallbackView" ∷ [])
    ∷ (
      codes "repository",
      codes "RepositoryListView" ∷ codes "RepositoryDetailView" ∷ codes "RepositoryUploadView" ∷ [],
    )
    ∷ (codes "chat", codes "ChatView" ∷ [])
    ∷ (codes "analysis", codes "AnalysisView" ∷ codes "FindingDetailView" ∷ [])
    ∷ (codes "dashboard", codes "RepositoryDashboardView" ∷ codes "AnalyticsDashboardView" ∷ [])
    ∷ (
      codes "settings",
      codes "ProfileSettingsView" ∷ codes "TeamSettingsView" ∷ codes "GitHubSettingsView" ∷ [],
    )
    ∷ []

unfoldable pub module_components : List (Text × List Text)
module_components =
    (codes "auth", codes "LoginForm" ∷ codes "RegisterForm" ∷ [])
    ∷ (
      codes "repository",
      codes "RepositoryCard"
          ∷ codes "IndexStatusBadge"
          ∷ codes "UploadDropzone"
          ∷ codes "GitHubConnectButton"
          ∷ [],
    )
    ∷ (
      codes "chat",
      codes "ChatSidebar"
          ∷ codes "ChatThread"
          ∷ codes "ChatInput"
          ∷ codes "ChatMessage"
          ∷ codes "ChatCitation"
          ∷ codes "ScopeSelector"
          ∷ codes "AgentInlineResult"
          ∷ [],
    )
    ∷ (
      codes "analysis",
      codes "AnalysisTriggerPanel"
          ∷ codes "AgentStatusGrid"
          ∷ codes "FindingList"
          ∷ codes "FindingCard"
          ∷ codes "FindingFilter"
          ∷ codes "SeverityBadge"
          ∷ [],
    )
    ∷ (
      codes "dashboard",
      codes "HealthScoreCard"
          ∷ codes "TrendChart"
          ∷ codes "AgentUsageChart"
          ∷ codes "TokenUsageChart"
          ∷ codes "MetricSummaryPanel"
          ∷ [],
    )
    ∷ (
      codes "settings",
      codes "RoleManagementTable" ∷ codes "GitHubInstallationCard" ∷ codes "APIKeyManager" ∷ [],
    )
    ∷ []

unfoldable pub view_file : Text → Text → Text × Text
unfolding concat
view_file module_name v = (
  concat (codes "frontend/src/modules/" ∷ module_name ∷ codes "/views/" ∷ v ∷ codes ".vue" ∷ []),
  vue_shell,
)

-- The inner loops.
unfoldable pub view_files : Text × List Text → List (Text × Text)
unfolding view_file
view_files (module_name, views) = map (view_file module_name) views

unfoldable pub component_file : Text → Text → Text × Text
unfolding concat
component_file module_name c = (
  concat
      (codes "frontend/src/modules/" ∷ module_name ∷ codes "/components/" ∷ c ∷ codes ".vue" ∷ []),
  vue_shell,
)

unfoldable pub component_files : Text × List Text → List (Text × Text)
unfolding component_file
component_files (module_name, comps) = map (component_file module_name) comps

unfoldable pub shared_components : List Text
shared_components =
    codes "AppLayout"
    ∷ codes "AppSidebar"
    ∷ codes "AppHeader"
    ∷ codes "BaseButton"
    ∷ codes "BaseInput"
    ∷ codes "BaseModal"
    ∷ codes "BaseTable"
    ∷ codes "BasePagination"
    ∷ codes "BaseToast"
    ∷ codes "LoadingSpinner"
    ∷ codes "EmptyState"
    ∷ codes "ErrorBoundary"
    ∷ codes "CodeBlock"
    ∷ []

unfoldable pub shared_file : Text → Text × Text
shared_file c = (codes "frontend/src/shared/components/" ++ (c ++ codes ".vue"), vue_shell)
