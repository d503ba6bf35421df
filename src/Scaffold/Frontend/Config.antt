-- ===== src/Scaffold/Frontend/Config.antt =====
-- Texts of the configuration of the frontend that `build_frontend` of scripts/generate_scaffold.py writes.
use ai_developer_copilot_pla.Prelude.{[], ◌∷◌}
use ai_developer_copilot_pla.Text.{Text}
use ai_developer_copilot_pla.Scaffold.Source.{lines}

unfoldable pub index_html_text : Text
index_html_text = lines (
    "<!DOCTYPE html>" ∷ "<html lang=\"en\">" ∷ "  <head>" ∷ "    <meta charset=\"UTF-8\" />"
    ∷ "    <meta name=\"viewport\" content=\"width=device-width, initial-scale=1.0\" />"
    ∷ "    <title>AI Developer Copilot Platform</title>" ∷ "  </head>" ∷ "  <body>"
    ∷ "    <div id=\"app\"></div>" ∷ "    <script type=\"module\" src=\"/src/main.ts\"></script>"
    ∷ "  </body>" ∷ "</html>" ∷ [])

unfoldable pub package_json_text : Text
package_json_text = lines (
    "{" ∷ "  \"name\": \"ai-copilot-frontend\"," ∷ "  \"version\": \"0.1.0\","
    ∷ "  \"private\": true," ∷ "  \"type\": \"module\"," ∷ "  \"scripts\": {"
    ∷ "    \"dev\": \"vite\"," ∷ "    \"build\": \"vue-tsc -b && vite build\","
    ∷ "    \"preview\": \"vite preview\","
    ∷ "    \"lint\": \"eslint . --ext .vue,.js,.jsx,.cjs,.mjs,.ts,.tsx,.cts,.mts\","
    ∷ "    \"type-check\": \"vue-tsc --noEmit\"" ∷ "  }," ∷ "  \"dependencies\": {"
    ∷ "    \"axios\": \"^1.7.9\"," ∷ "    \"pinia\": \"^2.3.0\"," ∷ "    \"vue\": \"^3.5.13\","
    ∷ "    \"vue-router\": \"^4.5.0\"" ∷ "  }," ∷ "  \"devDependencies\": {"
    ∷ "    \"@vitejs/plugin-vue\": \"^5.2.1\"," ∷ "    \"autoprefixer\": \"^10.4.20\","
    ∷ "    \"postcss\": \"^8.4.49\"," ∷ "    \"tailwindcss\": \"^3.4.17\","
    ∷ "    \"typescript\": \"~5.7.2\"," ∷ "    \"vite\": \"^6.0.5\","
    ∷ "    \"vue-tsc\": \"^2.2.0\"" ∷ "  }" ∷ "}" ∷ [])

unfoldable pub tsconfig_json_text : Text
tsconfig_json_text = lines (
    "{" ∷ "  \"compilerOptions\": {" ∷ "    \"target\": \"ES2022\","
    ∷ "    \"useDefineForClassFields\": true," ∷ "    \"module\": \"ESNext\","
    ∷ "    \"lib\": [\"ES2022\", \"DOM\", \"DOM.Iterable\"]," ∷ "    \"skipLibCheck\": true,"
    ∷ "    \"moduleResolution\": \"bundler\"," ∷ "    \"allowImportingTsExtensions\": true,"
    ∷ "    \"resolveJsonModule\": true," ∷ "    \"isolatedModules\": true,"
    ∷ "    \"noEmit\": true," ∷ "    \"jsx\": \"preserve\"," ∷ "    \"strict\": true,"
    ∷ "    \"noUnusedLocals\": true," ∷ "    \"noUnusedParameters\": true,"
    ∷ "    \"noFallthroughCasesInSwitch\": true," ∷ "    \"baseUrl\": \".\","
    ∷ "    \"paths\": { \"@/*\": [\"src/*\"] }" ∷ "  },"
    ∷ "  \"include\": [\"src/**/*.ts\", \"src/**/*.tsx\", \"src/**/*.vue\"]" ∷ "}" ∷ [])

unfoldable pub vite_config_ts_text : Text
vite_config_ts_text = lines (
    "import { defineConfig } from 'vite'" ∷ "import vue from '@vitejs/plugin-vue'"
    ∷ "import { fileURLToPath, URL } from 'node:url'" ∷ "" ∷ "export default defineConfig({"
    ∷ "  plugins: [vue()]," ∷ "  resolve: {" ∷ "    alias: {"
    ∷ "      '@': fileURLToPath(new URL('./src', import.meta.url))," ∷ "    }," ∷ "  },"
    ∷ "  server: {" ∷ "    port: 5173," ∷ "    proxy: {"
    ∷ "      '/api': { target: 'http://localhost:8000', changeOrigin: true }," ∷ "    }," ∷ "  },"
    ∷ "})" ∷ [])

unfoldable pub tailwind_config_ts_text : Text
tailwind_config_ts_text = lines (
    "import type { Config } from 'tailwindcss'" ∷ "" ∷ "export default {"
    ∷ "  content: ['./index.html', './src/**/*.{vue,js,ts,jsx,tsx}']," ∷ "  theme: { extend: {} },"
    ∷ "  plugins: []," ∷ "} satisfies Config" ∷ [])

unfoldable pub postcss_config_js_text : Text
postcss_config_js_text = lines (
    "export default {" ∷ "  plugins: {" ∷ "    tailwindcss: {}," ∷ "    autoprefixer: {}," ∷ "  },"
    ∷ "}" ∷ [])

unfoldable pub frontend_dockerfile_text : Text
frontend_dockerfile_text = lines (
    "FROM node:22-alpine AS build" ∷ "WORKDIR /app" ∷ "COPY package.json ./" ∷ "RUN npm install"
    ∷ "COPY . ." ∷ "RUN npm run build" ∷ "" ∷ "FROM nginx:1.27-alpine"
    ∷ "COPY --from=build /app/dist /usr/share/nginx/html" ∷ "EXPOSE 80"
    ∷ "CMD [\"nginx\", \"-g\", \"daemon off;\"]" ∷ [])
