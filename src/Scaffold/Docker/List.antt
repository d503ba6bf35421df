-- ===== src/Scaffold/Docker/List.antt =====
-- `build_docker` of scripts/generate_scaffold.py: the container files, in order.
use ai_developer_copilot_pla.Prelude.{List, [], ◌∷◌}
use ai_developer_copilot_pla.Text.{Text, codes}
use ai_developer_copilot_pla.Scaffold.Docker.Compose.{docker_compose_yml_text}
use ai_developer_copilot_pla.Scaffold.Docker.Files.{
  docker_compose_test_yml_text, docker_compose_prod_yml_text, nginx_conf_text, default_conf_text,
}

unfoldable pub docker_files : List (Text × Text)
docker_files =
    (codes "docker/docker-compose.yml", docker_compose_yml_text)
    ∷ (codes "docker/docker-compose.test.yml", docker_compose_test_yml_text)
    ∷ (codes "docker/docker-compose.prod.yml", docker_compose_prod_yml_text)
    ∷ (codes "docker/nginx/nginx.conf", nginx_conf_text)
    ∷ (codes "docker/nginx/conf.d/default.conf", default_conf_text)
    ∷ []
