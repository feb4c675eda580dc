-- ===== src/Tests/Reading.antt =====
-- What a source is asked for, and what is made of its answers.
use ghost_ship.Base.{String, ◌≡◌, ◌⊎◌, refl, true, some, none, [], ◌==◌, if◌then◌else◌}
use ghost_ship.Base.Dict.{lookup}
use ghost_ship.Config.{apply_defaults}
use ghost_ship.Ssh.{Reply}
use ghost_ship.Nomad.Json.{Fields, end, field, str, arr, obj, cons, nil}
use ghost_ship.Extractor.Reads.{all_read}
use ghost_ship.Extractor.State.{config_command, extract_system_state}
use ghost_ship.Extractor.State.Missing.{not_found, extract_system_state-not_found}
use ghost_ship.Cli.{parse_migrate, no_options}
use ghost_ship.Cli.Reads.{IsAtTarget, cmd_migrate_reads}
use ghost_ship.Tests.Node.{runtime, node}
use ghost_ship.Tests.Migrating.{
  connect, load_config, decode_container, decode_objects, decode_object, hash, arguments, run,
}

cmd_migrate_reads_example :
    (all_read run.on_source ≡ true)
    × ((run.on_target ≡ [])
        ⊎ IsAtTarget connect load_config runtime decode_container decode_objects decode_object hash
            hash
            (parse_migrate arguments no_options)
            run)
cmd_migrate_reads_example =
    cmd_migrate_reads connect load_config runtime decode_container decode_objects decode_object hash
      hash arguments

abbrev fail2ban : String
fail2ban = config_command "/etc/fail2ban/jail.local"

abbrev root_keys : String
root_keys = "sudo cat /root/.ssh/authorized_keys 2>/dev/null || echo '[NOT_FOUND]'"

-- A server without fail2ban and without keys.
abbrev bare : String → Reply
bare cmd =
    if cmd == fail2ban
    then not_found
    else if cmd == root_keys
    then not_found
    else record { out = "relay-ru-01"; err = none }

extract_system_state-not_found_example :
    let state =
      (extract_system_state
        (λ _ c. bare c)
        runtime
        decode_container
        decode_objects
        decode_object
        (apply_defaults node)
        []).0 in
    (lookup "fail2ban_config" state.configs ≡ some "[NOT_FOUND]\n")
    × (lookup "root_authorized" state.ssh_public_keys ≡ some "[NOT_FOUND]\n")
unfolding lookup
extract_system_state-not_found_example =
    extract_system_state-not_found bare runtime decode_container decode_objects decode_object
      (apply_defaults node) [] "fail2ban_config" fail2ban "root_authorized" root_keys refl refl refl
      refl

-- A web server whose port is bound to one of the host.
abbrev web_at : String → Fields
web_at port = field "Name" (str "/web") (
    field "Image" (str "nginx") (
      field "HostConfig"
        (obj (
          field "PortBindings"
            (obj (field "80/tcp" (arr (cons (obj (field "HostPort" (str port) end)) nil)) end))
            end))
        end))
