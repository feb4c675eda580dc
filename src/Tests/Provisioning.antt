-- ===== src/Tests/Provisioning.antt =====
-- Provisioning a server by the example's manifest.
use mathlib.Core.List.Perm
use ghost_ship.Base.{
  String, ◌<>◌, ◌≡◌, refl, ◌⊎◌, ok, err, none, some, List, [], ◌∷◌, arith, ◌==◌, eq_iff,
  if◌then◌else◌,
}
use ghost_ship.Base.Text.{trim_space, split, quote}
use ghost_ship.Base.Int.{pos}
use ghost_ship.Base.Decimal.{format_int}
use ghost_ship.Base.Dict.{Dict, lookup}
use ghost_ship.Base.Sort.{sort_strings}
use ghost_ship.Config.{NodeManifest, apply_defaults}
use ghost_ship.Ssh.{Server}
use ghost_ship.Ssh.Steps.{sent, Stopped}
use ghost_ship.Provisioner.{run_full_provisioning}
use ghost_ship.Provisioner.Hardening.{apply_hardening}
use ghost_ship.Provisioner.Hardening.Laws.{firewall_steps, apply_hardening_outcome}
use ghost_ship.Provisioner.Compose.{
  write_compose_service, build_compose_project, check_service, scale_arg, header,
}
use ghost_ship.Provisioner.Compose.Laws.{
  SameMap, AllDeployable, project_text, project_args, write_compose_service_same,
  build_compose_project-ok_iff,
}
use ghost_ship.Provisioner.Services.{
  compose_path, mkdir_command, heredoc, read_command, up_command, deploy_services,
}
use ghost_ship.Provisioner.Services.Laws.{HoldsCompose, deploy_services_twice}
use ghost_ship.Provisioner.Laws.{base_commands, run_full_provisioning_ok}
use ghost_ship.Tests.Node.{node, panel, says, fails_at}

abbrev filled : NodeManifest
filled = apply_defaults node

hardened : apply_hardening (says "") filled.firewall [] ≡ (
  none,
  "sudo ufw --force enable" ∷ "sudo ufw allow 8443" ∷ "sudo ufw allow 443" ∷ "sudo ufw allow 22"
      ∷ "sudo ufw allow ssh" ∷ [],
)
unfolding apply_hardening apply_defaults format_int
hardened = refl

port_refused : apply_hardening (fails_at "sudo ufw allow 443" "") filled.firewall [] ≡ (
  some "failed to allow port 443: exit status 1",
  "sudo ufw allow 443" ∷ "sudo ufw allow 22" ∷ "sudo ufw allow ssh" ∷ [],
)
unfolding apply_hardening apply_defaults format_int
port_refused = refl

panel_text :
    write_compose_service panel
    ≡ "  3x-ui:\n    image: ghcr.io/mhsanaei/3x-ui:latest\n    restart: unless-stopped\n    environment:\n      PUID: \"1000\"\n      TZ: \"UTC\"\n    volumes:\n      - /opt/3x-ui/db:/etc/x-ui\n"
unfolding write_compose_service sort_strings lookup
panel_text = refl

apply_hardening_outcome_example :
    let server = fails_at "sudo ufw allow 443" "" in
    (apply_hardening server filled.firewall [] ≡ (none, sent (firewall_steps filled.firewall) []))
    ⊎ ((x : String) × ((apply_hardening server filled.firewall []).0 ≡ some x)
        × Stopped server
            (firewall_steps filled.firewall)
            []
            x
            (apply_hardening server filled.firewall []).1)
unfolding apply_defaults
apply_hardening_outcome_example =
    apply_hardening_outcome (fails_at "sudo ufw allow 443" "") filled.firewall [] refl

-- The environment in another order.
abbrev reordered : Dict String
reordered = ("PUID", "1000") ∷ ("TZ", "UTC") ∷ []

panel_env-SameMap : SameMap panel.env reordered
unfolding lookup
panel_env-SameMap = record {
  values = λ k. ground (arith, eq_iff "TZ" k, eq_iff "PUID" k, eq_iff "TZ" "PUID");
  keys_perm = Perm.swap "PUID" "TZ" [];
}

write_compose_service_same_example :
    write_compose_service (record panel { env = panel.env })
    ≡ write_compose_service (record panel { env = reordered })
write_compose_service_same_example =
    write_compose_service_same panel panel.env reordered panel_env-SameMap

abbrev project : String
project =
    "version: '3.9'\nservices:\n  3x-ui:\n    image: ghcr.io/mhsanaei/3x-ui:latest\n    restart: unless-stopped\n    environment:\n      PUID: \"1000\"\n      TZ: \"UTC\"\n    volumes:\n      - /opt/3x-ui/db:/etc/x-ui\n"

built : build_compose_project (panel ∷ []) ≡ ok (project, [])
unfolding build_compose_project write_compose_service sort_strings lookup check_service scale_arg
built = refl

scaled :
    build_compose_project (record panel { count = pos 2 } ∷ [])
    ≡ ok (project, "--scale 3x-ui=2" ∷ [])
unfolding build_compose_project write_compose_service sort_strings lookup check_service scale_arg
    format_int
scaled = refl

build_compose_project-ok_iff_example :
    AllDeployable [] (panel ∷ [])
    × (project ≡ header <> project_text (panel ∷ []))
    × ([] ≡ sort_strings (project_args (panel ∷ [])))
build_compose_project-ok_iff_example =
    (build_compose_project-ok_iff (panel ∷ []) project []).0 built

twice : build_compose_project (panel ∷ panel ∷ []) ≡ err "duplicate service name \"3x-ui\""
unfolding build_compose_project check_service quote
twice = refl

-- A server that keeps the compose file.
kept : List String → String
kept [] = ""
kept (cmd ∷ log) = if cmd == heredoc compose_path project then project <> "\n" else kept log

keeper : Server
unfolding kept
keeper log cmd = record {
  out = if cmd == read_command compose_path then kept log else "";
  err = none;
}

keeper-HoldsCompose : HoldsCompose keeper project []
unfolding keeper split
keeper-HoldsCompose = record {
  content = kept;
  reads = λ log h. refl;
  no_end = refl;
  after_write = λ log h. refl;
  after_read = λ log. refl;
  after_mkdir = λ log. refl;
  after_up = λ log. refl;
}

-- The first deployment writes the file.
abbrev once : List String
once = up_command [] ∷ heredoc compose_path project ∷ read_command compose_path ∷ mkdir_command ∷ []

deployed_once : deploy_services keeper (panel ∷ []) [] ≡ (none, once)
unfolding deploy_services keeper trim_space build_compose_project write_compose_service sort_strings
    lookup check_service scale_arg
deployed_once = refl

deployed_again :
    deploy_services keeper (panel ∷ []) once
    ≡ (none, up_command [] ∷ read_command compose_path ∷ mkdir_command ∷ once)
unfolding deploy_services keeper trim_space build_compose_project write_compose_service sort_strings
    lookup check_service scale_arg
deployed_again = refl

deploy_services_twice_example :
    up_command [] ∷ read_command compose_path ∷ mkdir_command ∷ once
    ≡ up_command [] ∷ read_command compose_path ∷ mkdir_command ∷ once
deploy_services_twice_example =
    deploy_services_twice keeper project [] keeper-HoldsCompose panel [] [] built deployed_once
      deployed_again

provisioned : (run_full_provisioning (says "") filled []).0 ≡ none
unfolding run_full_provisioning apply_hardening deploy_services trim_space build_compose_project
    write_compose_service sort_strings lookup check_service scale_arg apply_defaults format_int
provisioned = refl

run_full_provisioning_ok_example :
    let secured = sent (firewall_steps filled.firewall) (base_commands (says "") []) in
    ((says "" [] "sudo apt-get update && sudo apt-get upgrade -y").err ≡ none)
    × (filled.firewall.backend ≡ "ufw")
    × ((apply_hardening (says "") filled.firewall (base_commands (says "") [])).0 ≡ none)
    × ((deploy_services (says "") filled.services secured).0 ≡ none)
    × ((run_full_provisioning (says "") filled []).1
        ≡ (deploy_services (says "") filled.services secured).1)
run_full_provisioning_ok_example = run_full_provisioning_ok (says "") filled [] provisioned
