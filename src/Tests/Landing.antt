-- ===== src/Tests/Landing.antt =====
-- Landing on a server.
use ghost_ship.Base.{ℕ, String, ◌≡◌, refl, Result, ok, List, [], ◌∷◌}
use ghost_ship.Base.Text.{trim_space}
use ghost_ship.Base.Decimal.{format_int}
use ghost_ship.Base.Dict.{lookup}
use ghost_ship.Base.Sort.{sort_strings}
use ghost_ship.Config.{apply_defaults, load, validate}
use ghost_ship.Ssh.{Server}
use ghost_ship.Provisioner.{run_full_provisioning}
use ghost_ship.Provisioner.Hardening.{apply_hardening}
use ghost_ship.Provisioner.Compose.{
  write_compose_service, build_compose_project, check_service, scale_arg,
}
use ghost_ship.Provisioner.Services.{deploy_services}
use ghost_ship.Cli.{cmd_land}
use ghost_ship.Cli.Land.{landing, Landed, cmd_land-Landed_iff}
use ghost_ship.Tests.Node.{runtime, disk, parser, config_path, says}
use ghost_ship.Tests.Migrating.{decode_container, decode_objects, decode_object, hash}

abbrev connect : List String → String → Result Server
connect before ip = ok (says "")

abbrev land : List String → ℕ × List String
land args =
    landing connect disk parser runtime decode_container decode_objects decode_object hash hash
      "10.0.0.1" args

landed : (land (config_path ∷ [])).0 ≡ 0
unfolding cmd_land load validate run_full_provisioning apply_hardening deploy_services trim_space
    build_compose_project write_compose_service sort_strings lookup check_service scale_arg
    apply_defaults format_int
landed = refl

cmd_land-Landed_iff_example :
    Landed connect disk parser runtime decode_container decode_objects decode_object hash hash
      "10.0.0.1"
      (config_path ∷ [])
      (land (config_path ∷ [])).1
cmd_land-Landed_iff_example =
    (cmd_land-Landed_iff connect disk parser runtime decode_container decode_objects decode_object
        hash hash "10.0.0.1" (config_path ∷ [])).0
      landed
