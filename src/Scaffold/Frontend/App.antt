-- ===== src/Scaffold/Frontend/App.antt =====
-- Texts of the frame of the application that `build_frontend` of scripts/generate_scaffold.py writes.
use ai_developer_copilot_pla.Prelude.{[], ◌∷◌}
use ai_developer_copilot_pla.Text.{Text}
use ai_developer_copilot_pla.Scaffold.Source.{lines}

unfoldable pub main_ts_text : Text
main_ts_text = lines (
    "import { createApp } from 'vue'" ∷ "import { createPinia } from 'pinia'"
    ∷ "import App from './App.vue'" ∷ "import router from './router'" ∷ "import './assets/main.css'"
    ∷ "" ∷ "const app = createApp(App)" ∷ "app.use(createPinia())" ∷ "app.use(router)"
    ∷ "app.mount('#app')" ∷ [])

unfoldable pub app_vue_text : Text
app_vue_text = lines (
    "<template>" ∷ "  <AppLayout>" ∷ "    <router-view />" ∷ "  </AppLayout>" ∷ "</template>" ∷ ""
    ∷ "<script setup lang=\"ts\">" ∷ "import AppLayout from '@/shared/components/AppLayout.vue'"
    ∷ "</script>" ∷ [])

unfoldable pub main_css_text : Text
main_css_text = lines ("@tailwind base;" ∷ "@tailwind components;" ∷ "@tailwind utilities;" ∷ [])

unfoldable pub index_ts_text : Text
index_ts_text = lines (
    "import { createRouter, createWebHistory } from 'vue-router'"
    ∷ "import { authGuard } from './guards/auth.guard'"
    ∷ "import { rbacGuard } from './guards/rbac.guard'"
    ∷ "import { authRoutes } from './routes/auth.routes'"
    ∷ "import { repositoryRoutes } from './routes/repository.routes'"
    ∷ "import { chatRoutes } from './routes/chat.routes'"
    ∷ "import { analysisRoutes } from './routes/analysis.routes'"
    ∷ "import { dashboardRoutes } from './routes/dashboard.routes'" ∷ ""
    ∷ "const router = createRouter({" ∷ "  history: createWebHistory(import.meta.env.BASE_URL),"
    ∷ "  routes: [" ∷ "    ...authRoutes," ∷ "    ...repositoryRoutes," ∷ "    ...chatRoutes,"
    ∷ "    ...analysisRoutes," ∷ "    ...dashboardRoutes," ∷ "  ]," ∷ "})" ∷ ""
    ∷ "router.beforeEach(authGuard)" ∷ "router.beforeEach(rbacGuard)" ∷ "" ∷ "export default router"
    ∷ [])
