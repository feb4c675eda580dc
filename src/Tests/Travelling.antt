-- ===== src/Tests/Travelling.antt =====
-- A migration of the certificate of one server to the server that keeps it.
use ghost_ship.Base.{
  String, ◌≡◌, refl, false, ◌||◌, ◌==◌, Result, ok, none, [], if◌then◌else◌, List,
}
use ghost_ship.Base.Text.{trim_space}
use ghost_ship.Base.Decimal.{format_int}
use ghost_ship.Base.Dict.{lookup}
use ghost_ship.Base.Sort.{sort_strings}
use ghost_ship.Config.{NodeManifest, apply_defaults, load, validate}
use ghost_ship.Ssh.{Server}
use ghost_ship.Provisioner.{run_full_provisioning}
use ghost_ship.Provisioner.Hardening.{apply_hardening}
use ghost_ship.Provisioner.Compose.{
  write_compose_service, build_compose_project, check_service, scale_arg,
}
use ghost_ship.Provisioner.Services.{deploy_services}
use ghost_ship.Cli.{parse_migrate, no_options}
use ghost_ship.Cli.Moved.{IsMoved, sent_to, migrate, taken_from, cmd_migrate-IsMoved}
use ghost_ship.Tests.Node.{runtime, node, disk, parser}
use ghost_ship.Tests.Migrating.{decode_container, decode_objects, decode_object, arguments}
use ghost_ship.Tests.Placing.{host, hash, encode}
use ghost_ship.Tests.Copying.{answers, host-HoldsState, restorable}

abbrev cfg : NodeManifest
cfg = apply_defaults node

abbrev source : Server
source log cmd = answers cmd

abbrev connect : List String → String → Result Server
connect before ip = if ip == "10.0.0.1" then ok source else ok host

abbrev BothNamed : Type 0
BothNamed =
    let o = parse_migrate arguments no_options in (o.source_ip == "" || o.target_ip == "") ≡ false

named : BothNamed
unfolding parse_migrate
named = refl

loaded : load disk parser (parse_migrate arguments no_options).config_file ≡ ok cfg
unfolding parse_migrate load validate apply_defaults
loaded = refl

from : connect [] (parse_migrate arguments no_options).source_ip ≡ ok source
unfolding parse_migrate
from = refl

to :
    (before : List String) → connect before (parse_migrate arguments no_options).target_ip ≡ ok host
unfolding parse_migrate
to before = refl

provisioned : (run_full_provisioning host cfg []).0 ≡ none
unfolding run_full_provisioning apply_hardening deploy_services trim_space build_compose_project
    write_compose_service sort_strings lookup check_service scale_arg apply_defaults format_int host
provisioned = refl

-- What the source was asked before.
abbrev asked : List String
asked =
    sent_to connect disk parser runtime decode_container decode_objects decode_object hash encode
      source cfg

cmd_migrate-IsMoved_example :
    let m =
      migrate connect disk parser runtime decode_container decode_objects decode_object hash encode
        arguments in
    (m.exit_code ≡ 0)
    × IsMoved connect disk parser runtime decode_container decode_objects decode_object hash encode
        host cfg
        (taken_from connect disk parser runtime decode_container decode_objects decode_object hash
          encode source cfg)
        (host-HoldsState cfg).file
        m
cmd_migrate-IsMoved_example =
    cmd_migrate-IsMoved connect disk parser runtime decode_container decode_objects decode_object
      hash encode arguments cfg source host (host-HoldsState cfg) refl named loaded from (to asked)
      provisioned (restorable cfg)
