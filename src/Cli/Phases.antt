-- ===== src/Cli/Phases.antt =====
-- The phases of a migration, as a machine that `cmdMigrate` runs.
pub mod Runs
pub mod Safety
use ghost_ship.Base.{
  ℕ, String, ◌≡◌, refl, ◌≢◌, ◌↔◌, ◌⊎◌, inl, inr, true, false, Bool, Error, Result, ok, err, Option,
  none, some, List, [], ◌∷◌, arith, ◌==◌, ◌||◌, ltb, length, if◌then◌else◌, Bool-cases,
  Option-cases, Result-cases, sym, ap, ◌∙◌,
}
use ghost_ship.Base.Int.{ℤ}
use ghost_ship.Config.{NodeManifest}
use ghost_ship.Ssh.{Server}
use ghost_ship.Nomad.Json.{Fields}
use ghost_ship.Nomad.Docker.{ContainerConfig}
use ghost_ship.Provisioner.{run_full_provisioning}
use ghost_ship.Extractor.State.{
  Runtime, SystemState, extract_system_state, validate_state, restore_system_state,
}
use ghost_ship.Extractor.State.Laws.{restore_system_state_tries}
use ghost_ship.Cli.{
  MigrateOptions, Migration, no_options, parse_migrate, stopped, migrate_to, migrate_from,
  run_migration, cmd_migrate,
}

-- What a migration has at hand, before each of its decisions and at its end.
pub data Phase : Type 0 where
  arguments : List String → Phase
  options : MigrateOptions → Phase
  manifest : MigrateOptions → NodeManifest → Phase
  extracted : String → NodeManifest → SystemState → List String → Phase
  reached : Server → NodeManifest → SystemState → List String → Phase
  provisioned : Server → SystemState → List String → List String → Phase
  ended : Migration → Phase

module _ (connect : List String → String → Result Server)
    (load_config : String → Result NodeManifest) (runtime : Runtime)
    (decode_container : String → Result ContainerConfig)
    (decode_objects : String → Result (List Fields)) (decode_object : String → Result Fields)
    (sha256_hex base64 : String → String) where
  abbrev pub state_of : Server → NodeManifest → SystemState × List String
  state_of s cfg =
      extract_system_state s runtime decode_container decode_objects decode_object cfg []

  abbrev pub restored : Server → SystemState → List String → List String → Migration
  restored target state source_log log = record {
    exit_code = 0;
    on_source = source_log;
    on_target = (restore_system_state target sha256_hex base64 state log).1;
  }

  pub data Step : Phase → Phase → Type 0 where
    too_few :
        {args : List String}
        → ltb (length args) 4 ≡ true
        → Step (arguments args) (ended (stopped [] []))
    parse :
        {args : List String}
        → ltb (length args) 4 ≡ false
        → Step (arguments args) (options (parse_migrate args no_options))
    no_address :
        {o : MigrateOptions}
        → (o.source_ip == "" || o.target_ip == "") ≡ true
        → Step (options o) (ended (stopped [] []))
    no_manifest :
        {o : MigrateOptions} {e : String}
        → (o.source_ip == "" || o.target_ip == "") ≡ false
        → load_config o.config_file ≡ err e
        → Step (options o) (ended (stopped [] []))
    load_manifest :
        {o : MigrateOptions} {cfg : NodeManifest}
        → (o.source_ip == "" || o.target_ip == "") ≡ false
        → load_config o.config_file ≡ ok cfg
        → Step (options o) (manifest o cfg)
    no_source :
        {o : MigrateOptions} {cfg : NodeManifest} {e : String}
        → connect [] o.source_ip ≡ err e
        → Step (manifest o cfg) (ended (stopped [] []))
    extract :
        {o : MigrateOptions} {cfg : NodeManifest} {source : Server}
        → connect [] o.source_ip ≡ ok source
        → Step
            (manifest o cfg)
            (extracted o.target_ip cfg (state_of source cfg).0 (state_of source cfg).1)
    invalid :
        {ip : String} {cfg : NodeManifest} {state : SystemState} {log : List String} {e : String}
        → validate_state state ≡ some e
        → Step (extracted ip cfg state log) (ended (stopped log []))
    no_target :
        {ip : String} {cfg : NodeManifest} {state : SystemState} {log : List String} {e : String}
        → validate_state state ≡ none
        → connect log ip ≡ err e
        → Step (extracted ip cfg state log) (ended (stopped log []))
    reach :
        {ip : String} {cfg : NodeManifest} {state : SystemState} {log : List String}
        {target : Server}
        → validate_state state ≡ none
        → connect log ip ≡ ok target
        → Step (extracted ip cfg state log) (reached target cfg state log)
    fail :
        {target : Server} {cfg : NodeManifest} {state : SystemState} {log : List String}
        {e : String}
        → (run_full_provisioning target cfg []).0 ≡ some e
        → Step
            (reached target cfg state log)
            (ended (stopped log (run_full_provisioning target cfg []).1))
    provision :
        {target : Server} {cfg : NodeManifest} {state : SystemState} {log : List String}
        → (run_full_provisioning target cfg []).0 ≡ none
        → Step
            (reached target cfg state log)
            (provisioned target state log (run_full_provisioning target cfg []).1)
    restore :
        {target : Server} {state : SystemState} {source_log log : List String}
        → Step
            (provisioned target state source_log log)
            (ended (restored target state source_log log))

  pub data Run : Phase → Phase → Type 0 where
    here : {p : Phase} → Run p p
    next : {p q r : Phase} → Step p q → Run q r → Run p r

  -- What the program makes of a phase.
  unfoldable pub finish : Phase → Migration
  finish (arguments args) =
      cmd_migrate connect load_config runtime decode_container decode_objects decode_object
        sha256_hex base64 args
  finish (options o) =
      run_migration connect load_config runtime decode_container decode_objects decode_object
        sha256_hex base64 o
  finish (manifest o cfg) = elim (connect [] o.source_ip) [
    | err _ ↦ stopped [] []
    | ok source ↦
        migrate_from connect load_config runtime decode_container decode_objects decode_object
          sha256_hex base64 source o.target_ip cfg
  ]
  finish (extracted ip cfg state log) = elim (validate_state state) [
    | some _ ↦ stopped log []
    | none ↦ elim (connect log ip) [
      | err _ ↦ stopped log []
      | ok target ↦
          migrate_to connect load_config runtime decode_container decode_objects decode_object
            sha256_hex base64 target cfg state log
    ]
  ]
  finish (reached target cfg state log) =
      migrate_to connect load_config runtime decode_container decode_objects decode_object
        sha256_hex base64 target cfg state log
  finish (provisioned target state source_log log) = restored target state source_log log
  finish (ended m) = m

  pub restore-none :
      (to : Server) (state : SystemState) (log : List String)
      → (restore_system_state to sha256_hex base64 state log).0 ≡ none
  restore-none to state log = (restore_system_state_tries to sha256_hex base64 state log).0

  pub Step-finish : {p q : Phase} → Step p q → finish p ≡ finish q
  unfolding finish cmd_migrate run_migration migrate_from migrate_to
  Step-finish (too_few h) = ground (arith, h)
  Step-finish (parse h) = ground (arith, h)
  Step-finish (no_address h) = ground (arith, h)
  Step-finish (no_manifest h k) = ground (arith, h, k)
  Step-finish (load_manifest h k) = ground (arith, h, k)
  Step-finish (no_source h) = ground (arith, h)
  Step-finish (extract h) = ground (arith, h)
  Step-finish (invalid h) = ground (arith, h)
  Step-finish (no_target h k) = ground (arith, h, k)
  Step-finish (reach h k) = ground (arith, h, k)
  Step-finish (fail h) = ground (arith, h)
  Step-finish (provision {target} {cfg} {state} {log} h) =
      ground (arith, h, restore-none target state (run_full_provisioning target cfg []).1)
  Step-finish restore = refl
