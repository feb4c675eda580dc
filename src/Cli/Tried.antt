-- ===== src/Cli/Tried.antt =====
-- What a migration that succeeds has asked of the target.
use ghost_ship.Base.{String, ◌≡◌, Result, ok, List, [], All}
use ghost_ship.Config.{NodeManifest}
use ghost_ship.Ssh.{Server}
use ghost_ship.Nomad.Json.{Fields}
use ghost_ship.Nomad.Docker.{ContainerConfig}
use ghost_ship.Nomad.Docker.Laws.{ContainerSent}
use ghost_ship.Nomad.Jobs.Laws.{JobSent}
use ghost_ship.Provisioner.{run_full_provisioning}
use ghost_ship.Extractor.State.{Runtime, SystemState}
use ghost_ship.Extractor.State.Puts.{DatabaseAsked, CertificateAsked, ConfigAsked}
use ghost_ship.Extractor.State.Laws.{restore_system_state_tries}
use ghost_ship.Cli.{Migration, MigrateOptions, no_options, parse_migrate}
use ghost_ship.Cli.Laws.{extracted, migration, cmd_migrate-Migrated}

module _ (connect : List String → String → Result Server)
    (load_config : String → Result NodeManifest) (runtime : Runtime)
    (decode_container : String → Result ContainerConfig)
    (decode_objects : String → Result (List Fields)) (decode_object : String → Result Fields)
    (sha256_hex base64 : String → String) where
  abbrev pub migrate : List String → Migration
  migrate =
      migration connect load_config runtime decode_container decode_objects decode_object sha256_hex
        base64

  abbrev pub state_of : Server → NodeManifest → SystemState
  state_of s cfg =
      (extracted connect load_config runtime decode_container decode_objects decode_object
        sha256_hex base64 s cfg).0

  -- Everything of a state was tried.
  pub record AllTried (state : SystemState) (log : List String) : Type 0 where
    pub databases : All (DatabaseAsked log) state.databases
    pub certificates : All (CertificateAsked log) state.certificates
    pub configs : All (ConfigAsked log) state.configs
    pub containers : All (ContainerSent log) state.docker.containers
    pub jobs : All (JobSent log) state.nomad.jobs

  pub record Tried (o : MigrateOptions) (m : Migration) : Type 0 where
    pub cfg : NodeManifest
    pub from : Server
    pub loaded : load_config o.config_file ≡ ok cfg
    pub from_connected : connect [] o.source_ip ≡ ok from
    pub tried : AllTried (state_of from cfg) m.on_target

  -- A migration that exits with status 0 has loaded the manifest and reached the source, and of the
  -- state extracted there it has asked the target for every database, every certificate whose key
  -- leads to a path and the configuration of Xray, where they are not empty, and has sent the target
  -- the start of every container that has an image and the specification of every job that has one.
  pub cmd_migrate-Tried :
      (args : List String)
      → (migrate args).exit_code ≡ 0
      → Tried (parse_migrate args no_options) (migrate args)
  cmd_migrate-Tried args h =
      let k =
        cmd_migrate-Migrated connect load_config runtime decode_container decode_objects
          decode_object sha256_hex base64 args h in
      let (_, databases, certificates, configs, containers, jobs) =
        restore_system_state_tries k.to sha256_hex base64 (state_of k.from k.cfg)
          (run_full_provisioning k.to k.cfg []).1 in
      record {
        cfg = k.cfg;
        from = k.from;
        loaded = k.loaded;
        from_connected = k.from_connected;
        tried = rw (k.target_end) (record {
          databases = databases;
          certificates = certificates;
          configs = configs;
          containers = containers;
          jobs = jobs;
        });
      }
