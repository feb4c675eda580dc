-- ===== src/Tests/Migrating.antt =====
-- Migrating a server to another one.
use ghost_ship.Base.{String, ◌≡◌, refl, some, Result, ok, err, List, [], ◌∷◌, ◌==◌, if◌then◌else◌}
use ghost_ship.Base.Text.{trim_space}
use ghost_ship.Base.Decimal.{format_int}
use ghost_ship.Base.Dict.{lookup}
use ghost_ship.Base.Sort.{sort_strings}
use ghost_ship.Config.{NodeManifest, apply_defaults, load}
use ghost_ship.Ssh.{Server}
use ghost_ship.Nomad.Json.{Fields}
use ghost_ship.Nomad.Docker.{ContainerConfig}
use ghost_ship.Provisioner.{run_full_provisioning}
use ghost_ship.Provisioner.Hardening.{apply_hardening}
use ghost_ship.Provisioner.Compose.{
  write_compose_service, build_compose_project, check_service, scale_arg,
}
use ghost_ship.Provisioner.Services.{deploy_services}
use ghost_ship.Extractor.State.{
  SystemState, validate_state, extract_system_state, restore_system_state,
}
use ghost_ship.Cli.{Command, main, Migration, migrate_from, parse_migrate, no_options, cmd_migrate}
use ghost_ship.Cli.Laws.{Flag, meant, parse_migrate-written}
use ghost_ship.Cli.Single.{Ended, cmd_extract}
use ghost_ship.Extractor.Stream.{StreamState}
use ghost_ship.Extractor.Stream.Stub.{empty_stream, pack_system_state}
use ghost_ship.Cli.Plain.{cmd_extract-empty_stream}
use ghost_ship.Tests.Node.{runtime, node, disk, parser, config_path, says}
use ghost_ship.Tests.Settings.{loads}

missing_address : main ("audit" ∷ []) ≡ Command.usage
unfolding main
missing_address = refl

abbrev flags : List Flag
flags = Flag.target "--from" ∷ Flag.source "10.0.0.1" ∷ Flag.target "10.0.0.2" ∷ []

parse_migrate-written_example :
    parse_migrate ("--to" ∷ "--from" ∷ "--from" ∷ "10.0.0.1" ∷ "--to" ∷ "10.0.0.2" ∷ []) no_options
    ≡ meant flags no_options
parse_migrate-written_example = parse_migrate-written flags no_options

abbrev pub connect : List String → String → Result Server
connect before ip = ok (says "")

abbrev pub load_config : String → Result NodeManifest
load_config path = if path == config_path then ok (apply_defaults node) else err "no such file"

abbrev pub decode_container : String → Result ContainerConfig
decode_container text = err "no JSON"

abbrev pub decode_objects : String → Result (List Fields)
decode_objects text = err "no JSON"

abbrev pub decode_object : String → Result Fields
decode_object text = err "no JSON"

abbrev pub hash : String → String
hash s = s

abbrev pub arguments : List String
arguments = "--from" ∷ "10.0.0.1" ∷ "--to" ∷ "10.0.0.2" ∷ []

abbrev pub run : Migration
run =
    cmd_migrate connect load_config runtime decode_container decode_objects decode_object hash hash
      arguments

pub finished : run.exit_code ≡ 0
unfolding cmd_migrate parse_migrate migrate_from validate_state extract_system_state
    restore_system_state run_full_provisioning apply_hardening deploy_services trim_space
    build_compose_project write_compose_service sort_strings lookup check_service scale_arg
    apply_defaults format_int
finished = refl

-- A stream that keeps the state's host name.
abbrev pack : SystemState → Result StreamState
pack s = ok (record { content = s.hostname; key = "key"; nonce = "nonce"; checksum = ""; size = 0 })

abbrev extraction : Ended StreamState
extraction =
    cmd_extract connect load_config runtime decode_container decode_objects decode_object pack
      config_path

packed :
    extraction.made
    ≡ some
        (record { content = "relay-ru-01"; key = "key"; nonce = "nonce"; checksum = ""; size = 0 })
unfolding cmd_extract validate_state extract_system_state apply_defaults
packed = refl

cmd_extract-empty_stream_example :
    cmd_extract connect
      (load disk parser)
      runtime
      decode_container
      decode_objects
      decode_object
      pack_system_state
      config_path
    ≡ record {
      exit_code = 0;
      made = some empty_stream;
      log =
          (extract_system_state
            (says "")
            runtime
            decode_container
            decode_objects
            decode_object
            (apply_defaults node)
            []).1;
    }
cmd_extract-empty_stream_example =
    cmd_extract-empty_stream connect disk parser runtime decode_container decode_objects
      decode_object config_path (apply_defaults node) (says "") loads refl
