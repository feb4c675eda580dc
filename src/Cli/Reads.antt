-- ===== src/Cli/Reads.antt =====
-- A migration only reads on its source.
use ghost_ship.Base.{String, ◌≡◌, refl, ◌⊎◌, inl, inr, true, Result, ok, List, []}
use ghost_ship.Config.{NodeManifest}
use ghost_ship.Ssh.{Server}
use ghost_ship.Nomad.Json.{Fields}
use ghost_ship.Nomad.Docker.{ContainerConfig}
use ghost_ship.Extractor.State.{Runtime, SystemState, extract_system_state, restore_system_state}
use ghost_ship.Extractor.Reads.{all_read}
use ghost_ship.Extractor.Reads.State.{extract_system_state_reads}
use ghost_ship.Provisioner.{run_full_provisioning}
use ghost_ship.Cli.{Migration, MigrateOptions, no_options, parse_migrate, cmd_migrate}
use ghost_ship.Cli.Phases.Safety.{Ended, untouched, not_provisioned, moved, cmd_migrate-Ended}
use ghost_ship.Cli.Phases.{
  Phase, arguments, options, manifest, extracted, reached, provisioned, ended, Step, too_few, parse,
  no_address, no_manifest, no_source, extract, invalid, no_target, reach, fail, provision, restore,
  here, next,
}
use ghost_ship.Cli.Phases.Runs.{RunsTo, from_arguments, cmd_migrate-runs_iff}

module _ (connect : List String → String → Result Server)
    (load_config : String → Result NodeManifest) (runtime : Runtime)
    (decode_container : String → Result ContainerConfig)
    (decode_objects : String → Result (List Fields)) (decode_object : String → Result Fields) where
  state_reads :
      (source : Server) (cfg : NodeManifest)
      → all_read
          (extract_system_state source runtime decode_container decode_objects decode_object cfg
            []).1
        ≡ true
  unfolding all_read
  state_reads source cfg =
      extract_system_state_reads source runtime decode_container decode_objects decode_object cfg []
        refl

  module _ (sha256_hex base64 : String → String) where
    -- What a phase has sent the source.
    abbrev sent : Phase → List String
    sent (arguments args) = []
    sent (options o) = []
    sent (manifest o cfg) = []
    sent (extracted ip cfg state log) = log
    sent (reached target cfg state log) = log
    sent (provisioned target state source_log log) = source_log
    sent (ended m) = m.on_source

    abbrev IsReading : Phase → Type 0
    IsReading p = all_read (sent p) ≡ true

    abbrev Steps : Phase → Phase → Type 0
    Steps =
        Step connect load_config runtime decode_container decode_objects decode_object sha256_hex
          base64

    Step-IsReading : {p q : Phase} → Steps p q → IsReading p → IsReading q
    Step-IsReading (too_few h) s = s
    Step-IsReading (parse h) s = s
    Step-IsReading (no_address h) s = s
    Step-IsReading (no_manifest h k) s = s
    Step-IsReading (Step.load_manifest h k) s = s
    Step-IsReading (no_source h) s = s
    Step-IsReading (extract {o} {cfg} {source} h) s = state_reads source cfg
    Step-IsReading (invalid h) s = s
    Step-IsReading (no_target h k) s = s
    Step-IsReading (reach h k) s = s
    Step-IsReading (fail h) s = s
    Step-IsReading (provision h) s = s
    Step-IsReading restore s = s

    Run-IsReading :
        {p q : Phase}
        → RunsTo connect load_config runtime decode_container decode_objects decode_object
            sha256_hex base64 p q
        → IsReading p
        → IsReading q
    Run-IsReading here s = s
    Run-IsReading (next st r) s = Run-IsReading r (Step-IsReading st s)

    abbrev pub migrated : List String → Migration
    migrated =
        cmd_migrate connect load_config runtime decode_container decode_objects decode_object
          sha256_hex base64

    reads : (args : List String) → all_read (migrated args).on_source ≡ true
    unfolding all_read
    reads args =
        let (m, r) =
          from_arguments connect load_config runtime decode_container decode_objects decode_object
            sha256_hex base64 args in
        let e =
          (cmd_migrate-runs_iff connect load_config runtime decode_container decode_objects
              decode_object sha256_hex base64 args m).0
            r in
        rw e (Run-IsReading r refl)

    -- What the second connection of a migration got: nothing, or the commands that provision a server
    -- that was reached at the address behind --to, with or without those of a restore behind them.
    pub record IsAtTarget (o : MigrateOptions) (m : Migration) : Type 0 where
      pub target : Server
      pub cfg : NodeManifest
      pub reached_at : connect m.on_source o.target_ip ≡ ok target
      pub commands :
          let log = (run_full_provisioning target cfg []).1 in
          (m.on_target ≡ log)
          ⊎ ((state : SystemState) × (m.on_target
                ≡ (restore_system_state target sha256_hex base64 state log).1))

    at_target :
        {o : MigrateOptions} {m : Migration}
        → Ended connect load_config runtime decode_container decode_objects decode_object sha256_hex
            base64 o m
        → (m.on_target ≡ []) ⊎ IsAtTarget o m
    at_target (untouched x p) = inl p
    at_target (not_provisioned target cfg state s v c h x p) =
        inr (record { target = target; cfg = cfg; reached_at = c; commands = inl p })
    at_target (moved target cfg state s v c h x p) =
        inr (record { target = target; cfg = cfg; reached_at = c; commands = inr (state, p) })

    -- Whatever the arguments and the servers, and at whatever point it stops, a migration sends over
    -- its first connection nothing but commands of a fixed table and commands that start in one of the
    -- ways that show something: with cat, docker inspect, tar to the standard output or nomad job
    -- inspect. Over a second connection it sends nothing, or the commands that provision a server that
    -- was reached at the address behind --to, with or without those of a restore behind them.
    pub cmd_migrate_reads :
        (args : List String)
        → (all_read (migrated args).on_source ≡ true)
          × (((migrated args).on_target ≡ [])
              ⊎ IsAtTarget (parse_migrate args no_options) (migrated args))
    cmd_migrate_reads args = (
      reads args,
      at_target (
          cmd_migrate-Ended connect load_config runtime decode_container decode_objects
            decode_object sha256_hex base64 args),
    )
