-- ===== src/Cli/Phases/Runs.antt =====
-- `cmdMigrate` runs the machine to its end, and what every run keeps.
use ghost_ship.Base.{
  String, ◌≡◌, refl, ◌↔◌, inl, inr, Result, List, [], ◌==◌, ◌||◌, ltb, length, Bool-cases,
  Option-cases, Result-cases, sym, ◌∙◌,
}
use ghost_ship.Config.{NodeManifest}
use ghost_ship.Ssh.{Server}
use ghost_ship.Nomad.Json.{Fields}
use ghost_ship.Nomad.Docker.{ContainerConfig}
use ghost_ship.Provisioner.{run_full_provisioning}
use ghost_ship.Extractor.State.{Runtime, SystemState, validate_state}
use ghost_ship.Cli.{MigrateOptions, Migration, no_options, parse_migrate, cmd_migrate}
use ghost_ship.Cli.Phases.{
  Phase, arguments, options, manifest, extracted, reached, ended, state_of, too_few, parse,
  no_address, no_manifest, load_manifest, no_source, extract, invalid, no_target, reach, fail,
  provision, restore, Run, here, next, finish, Step-finish,
}

module _ (connect : List String → String → Result Server)
    (load_config : String → Result NodeManifest) (runtime : Runtime)
    (decode_container : String → Result ContainerConfig)
    (decode_objects : String → Result (List Fields)) (decode_object : String → Result Fields)
    (sha256_hex base64 : String → String) where
  abbrev pub RunsTo : Phase → Phase → Type 0
  RunsTo =
      Run connect load_config runtime decode_container decode_objects decode_object sha256_hex
        base64

  abbrev pub result : Phase → Migration
  result =
      finish connect load_config runtime decode_container decode_objects decode_object sha256_hex
        base64

  pub Run-finish : {p q : Phase} → RunsTo p q → result p ≡ result q
  Run-finish here = refl
  Run-finish (next s r) =
      Step-finish connect load_config runtime decode_container decode_objects decode_object
        sha256_hex base64 s
      ∙ Run-finish r

  -- A run to some end.
  abbrev pub Ends : Phase → Type 0
  Ends p = (m : Migration) × RunsTo p (ended m)

  from_reached :
      (target : Server) (cfg : NodeManifest) (state : SystemState) (log : List String)
      → Ends (reached target cfg state log)
  from_reached target cfg state log = elim (Option-cases (run_full_provisioning target cfg []).0) [
    | inl p ↦ (_, next (provision p) (next restore here))
    | inr (e, p) ↦ (_, next (fail p) here)
  ]

  from_extracted :
      (ip : String) (cfg : NodeManifest) (state : SystemState) (log : List String)
      → Ends (extracted ip cfg state log)
  from_extracted ip cfg state log = elim (Option-cases (validate_state state)) [
    | inr (e, p) ↦ (_, next (invalid p) here)
    | inl p ↦ elim (Result-cases (connect log ip)) [
      | inr (e, q) ↦ (_, next (no_target p q) here)
      | inl (target, q) ↦ let (m, r) = from_reached target cfg state log in (m, next (reach p q) r)
    ]
  ]

  from_manifest : (o : MigrateOptions) (cfg : NodeManifest) → Ends (manifest o cfg)
  from_manifest o cfg = elim (Result-cases (connect [] o.source_ip)) [
    | inr (e, p) ↦ (_, next (no_source p) here)
    | inl (source, p) ↦
        let (state, log) =
          state_of connect load_config runtime decode_container decode_objects decode_object
            sha256_hex base64 source cfg in
        let (m, r) = from_extracted o.target_ip cfg state log in (m, next (extract p) r)
  ]

  from_options : (o : MigrateOptions) → Ends (options o)
  from_options o = elim (Bool-cases (o.source_ip == "" || o.target_ip == "")) [
    | inl p ↦ (_, next (no_address p) here)
    | inr p ↦ elim (Result-cases (load_config o.config_file)) [
      | inr (e, q) ↦ (_, next (no_manifest p q) here)
      | inl (cfg, q) ↦ let (m, r) = from_manifest o cfg in (m, next (load_manifest p q) r)
    ]
  ]

  pub from_arguments : (args : List String) → Ends (arguments args)
  from_arguments args = elim (Bool-cases (ltb (length args) 4)) [
    | inl p ↦ (_, next (too_few p) here)
    | inr p ↦ let (m, r) = from_options (parse_migrate args no_options) in (m, next (parse p) r)
  ]

  -- The command implements the machine: from some arguments the machine can end in a result exactly
  -- if it is the command's result. So every migration ends, and in one way only.
  pub cmd_migrate-runs_iff :
      (args : List String) (m : Migration)
      → Run connect load_config runtime decode_container decode_objects decode_object sha256_hex
          base64
          (arguments args)
          (ended m)
        ↔ (cmd_migrate connect load_config runtime decode_container decode_objects decode_object
              sha256_hex base64 args
            ≡ m)
  unfolding finish
  cmd_migrate-runs_iff args m = (
    λ r. Run-finish r,
    λ e. let (m', r) = from_arguments args in rw (sym (Run-finish r) ∙ e) at r,
  )
