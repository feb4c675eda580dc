-- ===== src/Tests/Connecting.antt =====
-- A migration over connections that are dialled with a key.
use ghost_ship.Base.{String, ◌≡◌, refl, none, Result, ok, err, ◌==◌, ◌||◌, if◌then◌else◌, List, []}
use ghost_ship.Base.Int.{pos}
use ghost_ship.Base.Text.{trim_space}
use ghost_ship.Base.Decimal.{format_int}
use ghost_ship.Base.Dict.{lookup}
use ghost_ship.Base.Sort.{sort_strings}
use ghost_ship.Config.{apply_defaults}
use ghost_ship.Ssh.Client.{Connection, ClientConfig, client_run, new_ssh_client}
use ghost_ship.Provisioner.{run_full_provisioning}
use ghost_ship.Provisioner.Hardening.{apply_hardening}
use ghost_ship.Provisioner.Compose.{
  write_compose_service, build_compose_project, check_service, scale_arg,
}
use ghost_ship.Provisioner.Services.{deploy_services}
use ghost_ship.Extractor.State.{validate_state, extract_system_state, restore_system_state}
use ghost_ship.Cli.{migrate_from, parse_migrate, no_options, cmd_migrate}
use ghost_ship.Cli.Dial.{connect, Dialled, migration, cmd_migrate-Dialled}
use ghost_ship.Tests.Node.{runtime, says}
use ghost_ship.Tests.Migrating.{
  load_config, decode_container, decode_objects, decode_object, hash, arguments,
}

abbrev key_path : String
key_path = "/root/.ssh/id_ed25519"

abbrev read_file : String → Result String
read_file path = if path == key_path then ok "PRIVATE KEY" else err "no such file"

abbrev parse_key : String → Result String
parse_key text = if text == "PRIVATE KEY" then ok "signer" else err "ssh: no key found"

abbrev connection : Connection
connection = record { new_session = λ log. none; combined_output = says "" }

abbrev dial : List String → String → ClientConfig String → Result Connection
dial before address config =
    if address == "10.0.0.1:22" || address == "10.0.0.2:22"
    then ok connection
    else err "connection refused"

no_key :
    new_ssh_client read_file parse_key (dial []) "root" "10.0.0.1" (pos 22) ""
    ≡ err "unable to read private key: no such file"
unfolding new_ssh_client
no_key = refl

refused :
    new_ssh_client read_file parse_key (dial []) "root" "10.0.0.3" (pos 22) key_path
    ≡ err "failed to dial: connection refused"
unfolding format_int new_ssh_client
refused = refl

finished :
    (migration read_file parse_key dial key_path load_config runtime decode_container decode_objects
      decode_object hash hash arguments).exit_code
    ≡ 0
unfolding connect new_ssh_client client_run cmd_migrate parse_migrate migrate_from validate_state
    extract_system_state restore_system_state run_full_provisioning apply_hardening deploy_services
    trim_space build_compose_project write_compose_service sort_strings lookup check_service
    scale_arg apply_defaults format_int
finished = refl

cmd_migrate-Dialled_example :
    Dialled read_file parse_key dial key_path load_config runtime decode_container decode_objects
      decode_object hash hash
      (parse_migrate arguments no_options)
      (migration read_file parse_key dial key_path load_config runtime decode_container
        decode_objects decode_object hash hash arguments)
cmd_migrate-Dialled_example =
    cmd_migrate-Dialled read_file parse_key dial key_path load_config runtime decode_container
      decode_objects decode_object hash hash arguments finished
