-- ===== src/Cli/Phases/Safety.antt =====
-- What every run of a migration keeps, and when it comes to its good end.
use ghost_ship.Base.{
  String, ◌≡◌, refl, false, Result, ok, none, some, Error, List, [], ◌==◌, ◌||◌, ltb, length, sym,
  ap, ◌∙◌,
}
use ghost_ship.Config.{NodeManifest, load}
use ghost_ship.Ssh.{Server}
use ghost_ship.Nomad.Json.{Fields}
use ghost_ship.Nomad.Docker.{ContainerConfig}
use ghost_ship.Provisioner.{run_full_provisioning}
use ghost_ship.Extractor.State.{
  Runtime, SystemState, extract_system_state, validate_state, restore_system_state,
}
use ghost_ship.Cli.{Migration, MigrateOptions, no_options, parse_migrate, cmd_migrate}
use ghost_ship.Cli.Laws.{validate_state-load}
use ghost_ship.Cli.Phases.{
  Phase, arguments, options, manifest, extracted, reached, provisioned, ended, state_of, Step,
  too_few, parse, no_address, no_manifest, no_source, extract, invalid, no_target, reach, fail,
  provision, restore, here, next,
}
use ghost_ship.Cli.Phases.Runs.{RunsTo, from_arguments, cmd_migrate-runs_iff}

module _ (connect : List String → String → Result Server)
    (load_config : String → Result NodeManifest) (runtime : Runtime)
    (decode_container : String → Result ContainerConfig)
    (decode_objects : String → Result (List Fields)) (decode_object : String → Result Fields)
    (sha256_hex base64 : String → String) where
  abbrev extraction : Server → NodeManifest → SystemState × List String
  extraction =
      state_of connect load_config runtime decode_container decode_objects decode_object sha256_hex
        base64

  -- A state that was extracted by the manifest and from the source that the options name, and the
  -- commands that the source got.
  abbrev pub IsExtracted : MigrateOptions → NodeManifest → SystemState → List String → Type 0
  IsExtracted o cfg state log =
      (source : Server) × (load_config o.config_file ≡ ok cfg)
      × (connect [] o.source_ip ≡ ok source)
      × (extraction source cfg ≡ (state, log))

  -- How a migration may end: with the target untouched; after a provisioning that failed; or after
  -- one that succeeded and the restore of a state that was extracted and is valid.
  pub data Ended (o : MigrateOptions) (m : Migration) : Type 0 where
    untouched : m.exit_code ≡ 1 → m.on_target ≡ [] → Ended o m
    not_provisioned :
        (target : Server) (cfg : NodeManifest) (state : SystemState) {e : String}
        → IsExtracted o cfg state m.on_source
        → validate_state state ≡ none
        → connect m.on_source o.target_ip ≡ ok target
        → (run_full_provisioning target cfg []).0 ≡ some e
        → m.exit_code ≡ 1
        → m.on_target ≡ (run_full_provisioning target cfg []).1
        → Ended o m
    moved :
        (target : Server) (cfg : NodeManifest) (state : SystemState)
        → IsExtracted o cfg state m.on_source
        → validate_state state ≡ none
        → connect m.on_source o.target_ip ≡ ok target
        → (run_full_provisioning target cfg []).0 ≡ none
        → m.exit_code ≡ 0
        → m.on_target
          ≡ (restore_system_state target sha256_hex base64 state
              (run_full_provisioning target cfg []).1).1
        → Ended o m

  abbrev Steps : Phase → Phase → Type 0
  Steps =
      Step connect load_config runtime decode_container decode_objects decode_object sha256_hex
        base64

  module _ (o : MigrateOptions) where
    -- The invariant of the phases, for the options that the arguments give.
    abbrev pub IsSafe : Phase → Type 0
    IsSafe (arguments args) = parse_migrate args no_options ≡ o
    IsSafe (options o') = o' ≡ o
    IsSafe (manifest o' cfg) = (o' ≡ o) × (load_config o.config_file ≡ ok cfg)
    IsSafe (extracted ip cfg state log) = (ip ≡ o.target_ip) × IsExtracted o cfg state log
    IsSafe (reached target cfg state log) =
        IsExtracted o cfg state log
        × (validate_state state ≡ none)
        × (connect log o.target_ip ≡ ok target)
    IsSafe (provisioned target state source_log log) =
        (cfg : NodeManifest) × IsExtracted o cfg state source_log
        × (validate_state state ≡ none)
        × (connect source_log o.target_ip ≡ ok target)
        × (run_full_provisioning target cfg [] ≡ (none, log))
    IsSafe (ended m) = Ended o m

    Step-IsSafe : {p q : Phase} → Steps p q → IsSafe p → IsSafe q
    Step-IsSafe (too_few h) s = untouched refl refl
    Step-IsSafe (parse h) s = s
    Step-IsSafe (no_address h) s = untouched refl refl
    Step-IsSafe (no_manifest h k) s = untouched refl refl
    Step-IsSafe (Step.load_manifest {o = o'} {cfg} h k) s =
        (s, ap (λ (p : MigrateOptions). load_config p.config_file) (sym s) ∙ k)
    Step-IsSafe (no_source h) s = untouched refl refl
    Step-IsSafe (extract {o = o'} {cfg} {source} h) (s, l) = (
      ap (λ (p : MigrateOptions). p.target_ip) s,
      (source, l, ap (λ (p : MigrateOptions). connect [] p.source_ip) (sym s) ∙ h, refl),
    )
    Step-IsSafe (invalid h) s = untouched refl refl
    Step-IsSafe (no_target h k) s = untouched refl refl
    Step-IsSafe (reach {log = log} h k) (same, s) = (s, h, ap (λ ip. connect log ip) (sym same) ∙ k)
    Step-IsSafe (fail {target} {cfg} {state} h) (s, v, c) =
        not_provisioned target cfg state s v c h refl refl
    Step-IsSafe (provision {target} {cfg} {state} {log} h) (s, v, c) =
        (cfg, s, v, c, ap (λ (e : Error). (e, (run_full_provisioning target cfg []).1)) h)
    Step-IsSafe (restore {target} {state} {source_log} {log}) (cfg, s, v, c, p) =
        moved target cfg state s v c (ap (λ (r : Error × List String). r.0) p) refl (
          ap
            (λ (r : Error × List String).
              (restore_system_state target sha256_hex base64 state r.1).1)
            (sym p))

    Run-IsSafe :
        {p q : Phase}
        → RunsTo connect load_config runtime decode_container decode_objects decode_object
            sha256_hex base64 p q
        → IsSafe p
        → IsSafe q
    Run-IsSafe here s = s
    Run-IsSafe (next st r) s = Run-IsSafe r (Step-IsSafe st s)

  abbrev migrate : List String → Migration
  migrate =
      cmd_migrate connect load_config runtime decode_container decode_objects decode_object
        sha256_hex base64

  -- Whatever the arguments and the servers, a migration ends in one of three ways. It exits with
  -- status 1 and has sent nothing over a second connection; or with status 1 behind a provisioning
  -- that failed; or with status 0 behind one that succeeded and a restore. In the last two ways the
  -- manifest is the one that the options name, the state was extracted from the server at the address
  -- behind --from, and passed the validation; and what was provisioned is the server that was reached
  -- after that at the address behind --to.
  pub cmd_migrate-Ended :
      (args : List String) → Ended (parse_migrate args no_options) (migrate args)
  cmd_migrate-Ended args =
      let (m, r) =
        from_arguments connect load_config runtime decode_container decode_objects decode_object
          sha256_hex base64 args in
      let e =
        (cmd_migrate-runs_iff connect load_config runtime decode_container decode_objects
            decode_object sha256_hex base64 args m).0
          r in
      rw e (Run-IsSafe (parse_migrate args no_options) r refl)

module _ (connect : List String → String → Result Server) (read_file : String → Result String)
    (unmarshal : String → Result NodeManifest) (runtime : Runtime)
    (decode_container : String → Result ContainerConfig)
    (decode_objects : String → Result (List Fields)) (decode_object : String → Result Fields)
    (sha256_hex base64 : String → String) where
  -- A migration by a manifest that loads exits with status 0 once it has four arguments and the
  -- address of a source and of a target that can be reached, and the target can be provisioned: no
  -- failure of the extraction or of the restore keeps it from that.
  pub cmd_migrate_arrives :
      (args : List String) (cfg : NodeManifest) (source target : Server)
      → let o = parse_migrate args no_options in
        ltb (length args) 4 ≡ false
        → (o.source_ip == "" || o.target_ip == "") ≡ false
        → load read_file unmarshal o.config_file ≡ ok cfg
        → connect [] o.source_ip ≡ ok source
        → connect
            (extract_system_state source runtime decode_container decode_objects decode_object cfg
              []).1
            o.target_ip
          ≡ ok target
        → (run_full_provisioning target cfg []).0 ≡ none
        → (cmd_migrate connect
            (load read_file unmarshal)
            runtime
            decode_container
            decode_objects
            decode_object
            sha256_hex
            base64
            args).exit_code
          ≡ 0
  cmd_migrate_arrives args cfg source target enough named loaded from to done =
      let o = parse_migrate args no_options in
      let valid =
        validate_state-load connect (load read_file unmarshal) runtime decode_container
          decode_objects decode_object sha256_hex base64 read_file unmarshal o.config_file cfg
          source loaded in
      let run = next (parse enough) (
        next (Step.load_manifest named loaded) (
          next (extract from)
            (next (reach valid to) (next (provision done) (next restore here))))) in
      ap (λ (m : Migration). m.exit_code)
        ((cmd_migrate-runs_iff connect (load read_file unmarshal) runtime decode_container
            decode_objects decode_object sha256_hex base64 args _).0
          run)
