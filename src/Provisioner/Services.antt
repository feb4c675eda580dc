-- ===== src/Provisioner/Services.antt =====
-- internal/provisioner/services.go: DeployServices.
pub mod Laws
use ghost_ship.Base.{
  String, ◌<>◌, Error, Result, ok, err, Option, none, some, List, [], ◌∷◌, ◌==◌, if◌then◌else◌,
}
use ghost_ship.Base.Text.{trim_space, join}
use ghost_ship.Config.{ServiceSpec}
use ghost_ship.Ssh.{Server, Ssh, pure, run, try, ◌>>=◌, ◌&>◌}
use ghost_ship.Provisioner.Compose.{build_compose_project}

abbrev pub compose_project_dir : String
compose_project_dir = "/opt/ghost-ship/services"

abbrev pub compose_file_name : String
compose_file_name = "docker-compose.yml"

abbrev pub compose_path : String
compose_path = compose_project_dir <> "/" <> compose_file_name

abbrev pub mkdir_command : String
mkdir_command = "mkdir -p " <> compose_project_dir

-- A here-document without expansions. The text ends at its first line `EOF`.
abbrev pub heredoc : String → String → String
heredoc path text = "cat > " <> path <> " << 'EOF'\n" <> text <> "\nEOF"

abbrev pub read_command : String → String
read_command path = "test -f " <> path <> " && cat " <> path <> " || true"

abbrev up_all : String
up_all = "cd " <> compose_project_dir <> " && docker compose up -d --pull always --remove-orphans"

abbrev pub up_command : List String → String
up_command [] = up_all
up_command (a ∷ args) = up_all <> " " <> join " " (a ∷ args)

module _ (server : Server) where
  unfoldable pub read_remote_file : String → Ssh (Result String)
  read_remote_file path = do
    r ← run server (read_command path)
    elim r.err [ some e ↦ pure (err e) | none ↦ pure (ok r.out) ]

  -- Writes the compose file unless the remote one differs at most in outer white space.
  unfoldable pub update_compose : String → Ssh Error
  unfolding read_remote_file
  update_compose text = do
    current ← read_remote_file compose_path
    elim current [
      | err e ↦ pure (some ("failed to inspect existing docker compose file: " <> e))
      | ok remote ↦
          if trim_space remote == trim_space text
          then pure none
          else try server "failed to write docker compose file: " (heredoc compose_path text)
    ]

  unfoldable pub start_project : String × List String → Ssh Error
  unfolding update_compose
  start_project (text, args) =
      try server "failed to create compose project dir: " mkdir_command
      &> update_compose text
      &> try server "failed to start services with docker compose: " (up_command args)

  unfoldable pub deploy_services : List ServiceSpec → Ssh Error
  unfolding start_project
  deploy_services [] = pure none
  deploy_services (s ∷ ss) = elim (build_compose_project (s ∷ ss)) [
    | err e ↦ pure (some e)
    | ok project ↦ start_project project
  ]
