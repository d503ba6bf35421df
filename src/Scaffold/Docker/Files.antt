-- ===== src/Scaffold/Docker/Files.antt =====
-- Texts of the container files that `build_docker` of scripts/generate_scaffold.py writes.
use ai_developer_copilot_pla.Prelude.{[], ◌∷◌}
use ai_developer_copilot_pla.Text.{Text}
use ai_developer_copilot_pla.Scaffold.Source.{lines}

unfoldable pub docker_compose_test_yml_text : Text
docker_compose_test_yml_text = lines (
    "services:" ∷ "  postgres:" ∷ "    image: postgres:15-alpine" ∷ "    environment:"
    ∷ "      POSTGRES_USER: test" ∷ "      POSTGRES_PASSWORD: test"
    ∷ "      POSTGRES_DB: copilot_test" ∷ "    tmpfs:" ∷ "      - /var/lib/postgresql/data" ∷ ""
    ∷ "  redis:" ∷ "    image: redis:7-alpine" ∷ "" ∷ "  qdrant:"
    ∷ "    image: qdrant/qdrant:v1.12.5" ∷ [])

unfoldable pub docker_compose_prod_yml_text : Text
docker_compose_prod_yml_text = lines (
    "services:" ∷ "  backend:" ∷ "    deploy:" ∷ "      replicas: 2" ∷ "      resources:"
    ∷ "        limits:" ∷ "          cpus: '2'" ∷ "          memory: 2G" ∷ "" ∷ "  celery-indexing:"
    ∷ "    deploy:" ∷ "      replicas: 2" ∷ "" ∷ "  celery-analysis:" ∷ "    deploy:"
    ∷ "      replicas: 2" ∷ "" ∷ "  celery-agent:" ∷ "    deploy:" ∷ "      replicas: 3" ∷ [])

unfoldable pub nginx_conf_text : Text
nginx_conf_text = lines (
    "worker_processes auto;" ∷ "error_log /var/log/nginx/error.log warn;"
    ∷ "pid /var/run/nginx.pid;" ∷ "" ∷ "events {" ∷ "    worker_connections 1024;" ∷ "}" ∷ ""
    ∷ "http {" ∷ "    include /etc/nginx/mime.types;" ∷ "    default_type application/octet-stream;"
    ∷ "    sendfile on;" ∷ "    keepalive_timeout 65;" ∷ "    client_max_body_size 100m;" ∷ ""
    ∷ "    include /etc/nginx/conf.d/*.conf;" ∷ "}" ∷ [])

unfoldable pub default_conf_text : Text
default_conf_text = lines (
    "upstream backend {" ∷ "    server backend:8000;" ∷ "}" ∷ "" ∷ "upstream frontend {"
    ∷ "    server frontend:80;" ∷ "}" ∷ "" ∷ "server {" ∷ "    listen 80;"
    ∷ "    server_name localhost;" ∷ "" ∷ "    location /api/ {"
    ∷ "        proxy_pass http://backend;" ∷ "        proxy_set_header Host $host;"
    ∷ "        proxy_set_header X-Real-IP $remote_addr;"
    ∷ "        proxy_set_header X-Forwarded-For $proxy_add_x_forwarded_for;"
    ∷ "        proxy_set_header X-Forwarded-Proto $scheme;" ∷ "        proxy_read_timeout 300s;"
    ∷ "    }" ∷ "" ∷ "    location /webhooks/ {" ∷ "        proxy_pass http://backend;"
    ∷ "        proxy_set_header Host $host;" ∷ "    }" ∷ "" ∷ "    location / {"
    ∷ "        proxy_pass http://frontend;" ∷ "        proxy_set_header Host $host;" ∷ "    }" ∷ "}"
    ∷ [])
