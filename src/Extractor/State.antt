-- ===== src/Extractor/State.antt =====
-- internal/extractor/extractor.go: the whole state of a server, extracted and restored. The clock and
-- the decoding of JSON are parameters. A step that fails is logged, and no function returns an error.
pub mod Puts
pub mod Files
pub mod Moved
pub mod Databases
pub mod Again
pub mod Missing
pub mod Laws
use ghost_ship.Base.{
  ℕ, String, ◌<>◌, Bool, Error, Result, ok, err, Option, none, some, List, [], ◌∷◌, ◌==◌, ltb,
  length, if◌then◌else◌,
}
use ghost_ship.Base.Int.{ℤ}
use ghost_ship.Base.Order.{shuffled}
use ghost_ship.Base.Dict.{Dict, insert}
use ghost_ship.Base.FilePath.{base}
use ghost_ship.Config.{NodeManifest}
use ghost_ship.Ssh.{Server, Ssh, pure, ◌>>=◌, ◌>>◌}
use ghost_ship.Nomad.Json.{Fields}
use ghost_ship.Nomad.Docker.{ContainerConfig, DockerState, extract_docker_state}
use ghost_ship.Nomad.Docker.Restore.{restore_docker_state}
use ghost_ship.Nomad.Jobs.{NomadState, extract_nomad_state, restore_nomad_state}
use ghost_ship.Extractor.Read.{collect}
use ghost_ship.Extractor.Certs.{extract_certificates, extract_xray_config, certificate_restore_path}
use ghost_ship.Extractor.Sqlite.{database_loop}
use ghost_ship.Extractor.Restore.{restore_bytes_if_changed}

pub record SystemState : Type 0 where
  pub hostname : String
  pub location : String
  pub role : String
  pub timestamp : ℤ
  pub system_info : Dict String
  pub certificates : Dict String
  pub databases : Dict String
  pub configs : Dict String
  pub ssh_public_keys : Dict String
  pub docker : DockerState
  pub nomad : NomadState

abbrev pub info_commands : List (String × String)
info_commands =
    ("os_version", "cat /etc/os-release | grep PRETTY_NAME | cut -d'=' -f2")
    ∷ ("hostname", "hostname")
    ∷ ("docker_version", "docker --version 2>/dev/null || echo 'not installed'")
    ∷ ("total_memory", "free -h | awk 'NR==2 {print $2}'")
    ∷ []

abbrev pub database_paths : List String
database_paths =
    "/opt/3x-ui/db/x-ui.db" ∷ "/opt/x-ui/db/x-ui.db" ∷ "/app/db/x-ui.db" ∷ "/var/lib/xui/x-ui.db"
    ∷ []

abbrev pub config_command : String → String
config_command path = "sudo cat " <> path <> " 2>/dev/null || echo '[NOT_FOUND]'"

abbrev pub config_commands : List (String × String)
config_commands =
    ("docker_config", config_command "/etc/docker/daemon.json")
    ∷ ("nomad_config", config_command "/etc/nomad.d/nomad.hcl")
    ∷ ("fail2ban_config", config_command "/etc/fail2ban/jail.local")
    ∷ ("ufw_rules", config_command "/etc/ufw/rules.v4")
    ∷ []

abbrev pub key_commands : List (String × String)
key_commands =
    ("root_authorized", "sudo cat /root/.ssh/authorized_keys 2>/dev/null || echo '[NOT_FOUND]'")
    ∷ ("user_pubkey", "cat ~/.ssh/id_rsa.pub 2>/dev/null || echo '[NOT_FOUND]'")
    ∷ []

abbrev pub unless_missing : String → Option String
unless_missing out = if out == "[NOT_FOUND]" then none else some out

-- The configuration of Xray, which is extracted together with the certificates.
abbrev pub xray_configs : Result String → Dict String
xray_configs (err e) = []
xray_configs (ok c) = if c == "" then [] else insert "xray.json" c []

-- What the runtime contributes to an extraction: the clock, and the order of the range over the map of
-- configurations.
pub record Runtime : Type 0 where
  pub now : ℤ
  pub picks : List ℕ

module _ (server : Server) where
  unfoldable pub extract_system_info : Ssh (Dict String)
  extract_system_info = collect server (λ out. some out) info_commands []

  -- `extractCertificates`: the certificates, and the configurations so far.
  abbrev pub extract_certs_and_xray : Ssh (Dict String × Dict String)
  extract_certs_and_xray = do
    certs ← extract_certificates server
    xray ← extract_xray_config server
    pure (certs, xray_configs xray)

  unfoldable pub extract_databases : Ssh (Dict String)
  extract_databases = database_loop server base database_paths []

  -- Configurations beside those that are there; the range over the map takes the rows in the order
  -- that the picks give.
  unfoldable pub extract_configs : List ℕ → Dict String → Ssh (Dict String)
  extract_configs picks = collect server unless_missing (shuffled picks config_commands)

  unfoldable pub extract_ssh_keys : Ssh (Dict String)
  extract_ssh_keys = collect server unless_missing key_commands []

module _ (server : Server) (runtime : Runtime) (decode_container : String → Result ContainerConfig)
    (decode_objects : String → Result (List Fields)) (decode_object : String → Result Fields) where
  unfoldable pub extract_system_state : NodeManifest → Ssh SystemState
  extract_system_state manifest = do
    info ← extract_system_info server
    (certs, found) ← extract_certs_and_xray server
    databases ← extract_databases server
    configs ← extract_configs server runtime.picks found
    keys ← extract_ssh_keys server
    docker ← extract_docker_state server decode_container decode_objects
    nomad ← extract_nomad_state server decode_objects decode_object
    pure (record {
      hostname = manifest.node.hostname;
      location = manifest.node.location;
      role = manifest.node.role;
      timestamp = runtime.now;
      system_info = info;
      certificates = certs;
      databases = databases;
      configs = configs;
      ssh_public_keys = keys;
      docker = docker;
      nomad = nomad;
    })

abbrev pub xray_path : String
xray_path = "/etc/x-ui/xray.json"

unfoldable pub validate_state : SystemState → Error
validate_state state = if state.hostname == "" then some "hostname is empty" else none

module _ (server : Server) (sha256_hex base64 : String → String) where
  -- A file is put at its path; the callers log the error.
  abbrev pub put_file : String → String → Ssh Error
  put_file path content = restore_bytes_if_changed server sha256_hex base64 path content Bool.true

  unfoldable pub put_databases : Dict String → Ssh Error
  put_databases [] = pure none
  put_databases ((name, content) ∷ databases) =
      put_file ("/opt/3x-ui/db/" <> name) content >> put_databases databases

  abbrev pub put_certificate : String → String → Ssh Error
  put_certificate name content =
      let path = certificate_restore_path name in
      if path == "" then pure none else put_file path content

  unfoldable pub put_certificates : Dict String → Ssh Error
  put_certificates [] = pure none
  put_certificates ((name, content) ∷ certs) =
      put_certificate name content >> put_certificates certs

  abbrev pub put_config : String → String → Ssh Error
  put_config name content = if name == "xray.json" then put_file xray_path content else pure none

  unfoldable pub put_configs : Dict String → Ssh Error
  put_configs [] = pure none
  put_configs ((name, content) ∷ configs) = put_config name content >> put_configs configs

  abbrev pub put_docker : DockerState → Ssh Error
  put_docker docker =
      if ltb 0 (length docker.containers) then restore_docker_state server docker else pure none

  abbrev pub put_nomad : NomadState → Ssh Error
  put_nomad nomad =
      if ltb 0 (length nomad.jobs) then restore_nomad_state server nomad else pure none

  unfoldable pub restore_system_state : SystemState → Ssh Error
  unfolding put_databases put_certificates put_configs
  restore_system_state state =
      put_databases state.databases
      >> put_certificates state.certificates
      >> put_configs state.configs
      >> put_docker state.docker
      >> put_nomad state.nomad
      >> pure none
