-- ===== src/Tests/Phasing.antt =====
-- The phases of a migration, and what it leaves.
use ghost_ship.Base.{◌≡◌, refl, false, ◌||◌, ok, none, [], ◌==◌}
use ghost_ship.Base.Text.{trim_space}
use ghost_ship.Base.Decimal.{format_int}
use ghost_ship.Base.Dict.{lookup}
use ghost_ship.Base.Sort.{sort_strings}
use ghost_ship.Config.{apply_defaults, load, validate}
use ghost_ship.Provisioner.{run_full_provisioning}
use ghost_ship.Provisioner.Hardening.{apply_hardening}
use ghost_ship.Provisioner.Compose.{
  write_compose_service, build_compose_project, check_service, scale_arg,
}
use ghost_ship.Provisioner.Services.{deploy_services}
use ghost_ship.Cli.{parse_migrate, no_options, cmd_migrate}
use ghost_ship.Cli.Tried.{Tried, cmd_migrate-Tried}
use ghost_ship.Cli.Phases.Safety.{Ended as MigrationEnded, cmd_migrate-Ended, cmd_migrate_arrives}
use ghost_ship.Tests.Node.{runtime, node, disk, parser, says}
use ghost_ship.Tests.Migrating.{
  connect, load_config, decode_container, decode_objects, decode_object, hash, arguments, run,
  finished,
}

cmd_migrate-Ended_example :
    MigrationEnded connect load_config runtime decode_container decode_objects decode_object hash
      hash
      (parse_migrate arguments no_options)
      run
cmd_migrate-Ended_example =
    cmd_migrate-Ended connect load_config runtime decode_container decode_objects decode_object hash
      hash arguments

named :
    let o = parse_migrate arguments no_options in (o.source_ip == "" || o.target_ip == "") ≡ false
unfolding parse_migrate
named = refl

loaded :
    load disk parser (parse_migrate arguments no_options).config_file ≡ ok (apply_defaults node)
unfolding parse_migrate load validate apply_defaults
loaded = refl

provisioned : (run_full_provisioning (says "") (apply_defaults node) []).0 ≡ none
unfolding run_full_provisioning apply_hardening deploy_services trim_space build_compose_project
    write_compose_service sort_strings lookup check_service scale_arg apply_defaults format_int
provisioned = refl

cmd_migrate_arrives_example :
    (cmd_migrate connect
      (load disk parser)
      runtime
      decode_container
      decode_objects
      decode_object
      hash
      hash
      arguments).exit_code
    ≡ 0
cmd_migrate_arrives_example =
    cmd_migrate_arrives connect disk parser runtime decode_container decode_objects decode_object
      hash hash arguments (apply_defaults node) (says "") (says "") refl named loaded refl refl
      provisioned

cmd_migrate-Tried_example :
    Tried connect load_config runtime decode_container decode_objects decode_object hash hash
      (parse_migrate arguments no_options)
      run
cmd_migrate-Tried_example =
    cmd_migrate-Tried connect load_config runtime decode_container decode_objects decode_object hash
      hash arguments finished
