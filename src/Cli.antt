-- ===== src/Cli.antt =====
-- cmd/gs/main.go: the command line. Connecting to an address is a parameter, and a server that is
-- connected to may be one that got commands before: over the connections made earlier, newest first.
-- Parameters are also loading a manifest, the clock and the decodings and encodings of the parts below. Output has what is
-- printed.
pub mod Laws
pub mod Single
pub mod Phases
pub mod Dial
pub mod Report
pub mod Verdict
pub mod Plain
pub mod Tried
pub mod Land
pub mod Output
pub mod Reads
pub mod Moved
use ghost_ship.Base.{
  ℕ, String, Bool, Error, Result, ok, err, Option, none, some, List, [], ◌∷◌, ◌||◌, ◌==◌, ltb,
  length, if◌then◌else◌,
}
use ghost_ship.Base.Int.{ℤ}
use ghost_ship.Config.{NodeManifest}
use ghost_ship.Ssh.{Server}
use ghost_ship.Nomad.Json.{Fields}
use ghost_ship.Nomad.Docker.{ContainerConfig}
use ghost_ship.Provisioner.{run_full_provisioning}
use ghost_ship.Extractor.State.{
  Runtime, SystemState, extract_system_state, validate_state, restore_system_state,
}

-- What `main` does with its arguments: one of the commands, or exit with status 1.
pub data Command : Type 0 where
  land : String → List String → Command
  migrate : List String → Command
  extract : String → Command
  audit : String → Command
  status : String → Command
  usage : Command

abbrev pub with_argument : (String → List String → Command) → List String → Command
with_argument f [] = usage
with_argument f (a ∷ rest) = f a rest

unfoldable pub main : List String → Command
main [] = usage
main (command ∷ args) =
    if command == "land"
    then with_argument land args
    else if command == "migrate"
    then migrate args
    else if command == "extract"
    then with_argument (λ a _. extract a) args
    else if command == "audit"
    then with_argument (λ a _. audit a) args
    else if command == "status"
    then with_argument (λ a _. status a) args
    else usage

abbrev pub default_config : String
default_config = "configs/example-node.yaml"

-- The configuration file of `land`.
abbrev pub land_config : List String → String
land_config [] = default_config
land_config (a ∷ _) = a

pub record MigrateOptions : Type 0 where
  pub source_ip : String
  pub target_ip : String
  pub config_file : String

abbrev pub no_options : MigrateOptions
no_options = record { source_ip = ""; target_ip = ""; config_file = default_config }

-- The loop over the arguments of `migrate`: a flag takes the next argument, a flag at the end and
-- any other argument are skipped.
unfoldable pub parse_migrate : List String → MigrateOptions → MigrateOptions
parse_migrate [] o = o
parse_migrate (a ∷ []) o = o
parse_migrate (a ∷ b ∷ args) o =
    let from = parse_migrate args (record o { source_ip = b }) in
    let to = parse_migrate args (record o { target_ip = b }) in
    let config = parse_migrate args (record o { config_file = b }) in
    let other = parse_migrate (b ∷ args) o in
    if a == "--from"
    then from
    else if a == "--to"
    then to
    else if a == "--config"
    then config
    else other

-- How a migration ended, behind the commands sent to the source and to the target, newest first.
pub record Migration : Type 0 where
  pub exit_code : ℕ
  pub on_source : List String
  pub on_target : List String

abbrev pub stopped : List String → List String → Migration
stopped source target = record { exit_code = 1; on_source = source; on_target = target }

module _ (connect : List String → String → Result Server)
    (load_config : String → Result NodeManifest) (runtime : Runtime)
    (decode_container : String → Result ContainerConfig)
    (decode_objects : String → Result (List Fields)) (decode_object : String → Result Fields)
    (sha256_hex base64 : String → String) where
  -- Phases 2 and 3: provisioning the target, then restoring the state on it.
  unfoldable pub migrate_to : Server → NodeManifest → SystemState → List String → Migration
  migrate_to target cfg state source_log =
      let (failed, log) = run_full_provisioning target cfg [] in
      let (lost, log') = restore_system_state target sha256_hex base64 state log in
      elim failed [
        | some _ ↦ stopped source_log log
        | none ↦ elim lost [
          | some _ ↦ stopped source_log log'
          | none ↦ record { exit_code = 0; on_source = source_log; on_target = log' }
        ]
      ]

  -- Phase 1: the state of the source.
  unfoldable pub migrate_from : Server → String → NodeManifest → Migration
  unfolding migrate_to
  migrate_from source target_ip cfg =
      let (state, log) =
        extract_system_state source runtime decode_container decode_objects decode_object cfg [] in
      elim (validate_state state) [
        | some _ ↦ stopped log []
        | none ↦ elim (connect log target_ip) [
          | err _ ↦ stopped log []
          | ok target ↦ migrate_to target cfg state log
        ]
      ]

  unfoldable pub run_migration : MigrateOptions → Migration
  unfolding migrate_from
  run_migration o =
      if o.source_ip == "" || o.target_ip == ""
      then stopped [] []
      else elim (load_config o.config_file) [
        | err _ ↦ stopped [] []
        | ok cfg ↦ elim (connect [] o.source_ip) [
          | err _ ↦ stopped [] []
          | ok source ↦ migrate_from source o.target_ip cfg
        ]
      ]

  unfoldable pub cmd_migrate : List String → Migration
  unfolding run_migration
  cmd_migrate args =
      if ltb (length args) 4 then stopped [] [] else run_migration (parse_migrate args no_options)

  -- The exit status of `land`, and the commands sent.
  unfoldable pub cmd_land : String → List String → ℕ × List String
  cmd_land ip args = elim (load_config (land_config args)) [
    | err _ ↦ (1, [])
    | ok cfg ↦ elim (connect [] ip) [
      | err _ ↦ (1, [])
      | ok server ↦
          let (failed, log) = run_full_provisioning server cfg [] in
          elim failed [ some _ ↦ (1, log) | none ↦ (0, log) ]
    ]
  ]
