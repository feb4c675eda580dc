-- ===== src/Cli/Moved.antt =====
-- A migration from one server to another that keeps files.
use ghost_ship.Base.{
  String, ◌≡◌, refl, false, Error, Option, Result, ok, none, some, List, [], ◌==◌, ◌||◌, ltb,
  length, All, ap, ◌∙◌,
}
use ghost_ship.Config.{NodeManifest, load}
use ghost_ship.Ssh.{Server}
use ghost_ship.Nomad.Json.{Fields}
use ghost_ship.Nomad.Docker.{ContainerConfig}
use ghost_ship.Provisioner.{run_full_provisioning}
use ghost_ship.Extractor.State.{Runtime, SystemState, extract_system_state, put_docker, put_nomad}
use ghost_ship.Extractor.State.Files.{
  HoldsFiles, IsRestorable, files_of, put_all, restore_system_state_files,
}
use ghost_ship.Cli.{Migration, no_options, parse_migrate, cmd_migrate}
use ghost_ship.Cli.Laws.{validate_state-load}
use ghost_ship.Cli.Phases.{parse, extract, reach, provision, restore, here, next, Step}
use ghost_ship.Cli.Phases.Runs.{cmd_migrate-runs_iff}

module _ (connect : List String → String → Result Server) (read_file : String → Result String)
    (unmarshal : String → Result NodeManifest) (runtime : Runtime)
    (decode_container : String → Result ContainerConfig)
    (decode_objects : String → Result (List Fields)) (decode_object : String → Result Fields)
    (sha256_hex base64 : String → String) where
  abbrev pub migrate : List String → Migration
  migrate =
      cmd_migrate connect (load read_file unmarshal) runtime decode_container decode_objects
        decode_object sha256_hex base64

  abbrev pub taken_from : Server → NodeManifest → SystemState
  taken_from source cfg =
      (extract_system_state source runtime decode_container decode_objects decode_object cfg []).0

  abbrev pub sent_to : Server → NodeManifest → List String
  sent_to source cfg =
      (extract_system_state source runtime decode_container decode_objects decode_object cfg []).1

  -- The files that a restore of a state puts are on the target, put there behind its provisioning, and
  -- the containers and the jobs of the state were started last.
  pub record IsMoved (target : Server) (cfg : NodeManifest) (state : SystemState)
      (file : List String → String → Option String) (m : Migration) : Type 0 where
    pub files_log : List String
    pub provisioned_before :
        files_log
        ≡ (put_all target sha256_hex base64
            (files_of state)
            (run_full_provisioning target cfg []).1).1
    pub files_there : All (λ (path, content). file files_log path ≡ some content) (files_of state)
    pub started_last :
        m.on_target
        ≡ (put_nomad target sha256_hex base64 state.nomad
            (put_docker target sha256_hex base64 state.docker files_log).1).1

  -- A migration by a manifest that loads, with four arguments and the address of a source and of a
  -- target that can be reached and provisioned, where the target keeps apart the files that a restore
  -- of the source's state puts - its databases, its certificates whose keys lead to a path and its
  -- configuration of Xray - and each has content that is not empty and whose hash no other text of its
  -- length has: it exits with status 0, and once these files are put, behind the provisioning, the
  -- target has every one of them with its content; then it starts the containers and the jobs.
  pub cmd_migrate-IsMoved :
      (args : List String) (cfg : NodeManifest) (source target : Server)
      (H : HoldsFiles target sha256_hex base64 (files_of (taken_from source cfg)))
      → let o = parse_migrate args no_options in
        ltb (length args) 4 ≡ false
        → (o.source_ip == "" || o.target_ip == "") ≡ false
        → load read_file unmarshal o.config_file ≡ ok cfg
        → connect [] o.source_ip ≡ ok source
        → connect (sent_to source cfg) o.target_ip ≡ ok target
        → (run_full_provisioning target cfg []).0 ≡ none
        → All (λ (_, content). IsRestorable sha256_hex content) (files_of (taken_from source cfg))
        → ((migrate args).exit_code ≡ 0)
          × IsMoved target cfg (taken_from source cfg) H.file (migrate args)
  cmd_migrate-IsMoved args cfg source target H enough named loaded from to done r =
      let o = parse_migrate args no_options in
      let state : SystemState = taken_from source cfg in
      let valid =
        validate_state-load connect (load read_file unmarshal) runtime decode_container
          decode_objects decode_object sha256_hex base64 read_file unmarshal o.config_file cfg
          source loaded in
      let run = next (parse enough) (
        next (Step.load_manifest named loaded) (
          next (extract from)
            (next (reach valid to) (next (provision done) (next restore here))))) in
      let e =
        (cmd_migrate-runs_iff connect (load read_file unmarshal) runtime decode_container
            decode_objects decode_object sha256_hex base64 args _).0
          run in
      let log : List String = (run_full_provisioning target cfg []).1 in
      let (put, whole) = restore_system_state_files target sha256_hex base64 state log H r in
      (
        ap (λ (m : Migration). m.exit_code) e,
        record {
          files_log = (put_all target sha256_hex base64 (files_of state) log).1;
          provisioned_before = refl;
          files_there = put;
          started_last =
              ap (λ (m : Migration). m.on_target) e ∙ ap (λ (q : Error × List String). q.1) whole;
        },
      )
