-- ===== src/Cli/Laws.antt =====
-- The arguments of a migration, and what one that succeeds has done.
use ghost_ship.Base.{
  String, ◌≡◌, refl, inl, inr, false, Result, ok, none, List, [], ◌∷◌, arith, ◌==◌, ◌||◌, ltb,
  length, if◌then◌else◌, Bool-cases, Option-cases, Result-cases, eq-false_iff, sym, ap, ◌∙◌,
}
use ghost_ship.Config.{NodeConfig, NodeManifest, load}
use ghost_ship.Config.Laws.{load-ok_iff}
use ghost_ship.Ssh.{Server}
use ghost_ship.Nomad.Json.{Fields}
use ghost_ship.Nomad.Docker.{ContainerConfig}
use ghost_ship.Provisioner.{run_full_provisioning}
use ghost_ship.Extractor.State.{
  Runtime, SystemState, extract_system_state, validate_state, restore_system_state,
}
use ghost_ship.Extractor.State.Laws.{restore_system_state_tries}
use ghost_ship.Cli.{
  Migration, MigrateOptions, no_options, parse_migrate, migrate_to, migrate_from, run_migration,
  cmd_migrate,
}

-- The flags of a command line, with their values.
pub data Flag : Type 0 where
  source : String → Flag
  target : String → Flag
  config : String → Flag

abbrev pub written : List Flag → List String
written [] = []
written (source v ∷ flags) = "--from" ∷ v ∷ written flags
written (target v ∷ flags) = "--to" ∷ v ∷ written flags
written (config v ∷ flags) = "--config" ∷ v ∷ written flags

-- The last flag of a kind decides.
abbrev pub meant : List Flag → MigrateOptions → MigrateOptions
meant [] o = o
meant (source v ∷ flags) o = meant flags (record o { source_ip = v })
meant (target v ∷ flags) o = meant flags (record o { target_ip = v })
meant (config v ∷ flags) o = meant flags (record o { config_file = v })

-- Flags in any order and number are read as they were meant, whatever their values, those included
-- that look like flags.
pub parse_migrate-written :
    (flags : List Flag) (o : MigrateOptions) → parse_migrate (written flags) o ≡ meant flags o
unfolding parse_migrate
parse_migrate-written [] o = refl
parse_migrate-written (source v ∷ flags) o =
    parse_migrate-written flags (record o { source_ip = v })
parse_migrate-written (target v ∷ flags) o =
    parse_migrate-written flags (record o { target_ip = v })
parse_migrate-written (config v ∷ flags) o =
    parse_migrate-written flags (record o { config_file = v })

module _ (connect : List String → String → Result Server)
    (load_config : String → Result NodeManifest) (runtime : Runtime)
    (decode_container : String → Result ContainerConfig)
    (decode_objects : String → Result (List Fields)) (decode_object : String → Result Fields)
    (sha256_hex base64 : String → String) where
  abbrev pub extracted : Server → NodeManifest → SystemState × List String
  extracted s cfg =
      extract_system_state s runtime decode_container decode_objects decode_object cfg []

  -- A migration from start to end: the source is left with the commands of the extraction, and the
  -- target is provisioned before the state is restored on it.
  pub record Migrated (o : MigrateOptions) (on_source on_target : List String) : Type 0 where
    pub cfg : NodeManifest
    pub from : Server
    pub to : Server
    pub loaded : load_config o.config_file ≡ ok cfg
    pub from_connected : connect [] o.source_ip ≡ ok from
    pub to_connected : connect (extracted from cfg).1 o.target_ip ≡ ok to
    pub provisioned : (run_full_provisioning to cfg []).0 ≡ none
    pub source_end : on_source ≡ (extracted from cfg).1
    pub target_end :
        on_target
        ≡ (restore_system_state to sha256_hex base64
            (extracted from cfg).0
            (run_full_provisioning to cfg []).1).1

  restore-none :
      (to : Server) (state : SystemState) (log : List String)
      → (restore_system_state to sha256_hex base64 state log).0 ≡ none
  restore-none to state log = (restore_system_state_tries to sha256_hex base64 state log).0

  abbrev to_end : Server → NodeManifest → SystemState → List String → Migration
  to_end =
      migrate_to connect load_config runtime decode_container decode_objects decode_object
        sha256_hex base64

  abbrev from_end : Server → String → NodeManifest → Migration
  from_end =
      migrate_from connect load_config runtime decode_container decode_objects decode_object
        sha256_hex base64

  abbrev run_end : MigrateOptions → Migration
  run_end =
      run_migration connect load_config runtime decode_container decode_objects decode_object
        sha256_hex base64

  abbrev pub migration : List String → Migration
  migration =
      cmd_migrate connect load_config runtime decode_container decode_objects decode_object
        sha256_hex base64

  migrate_to_done :
      (to : Server) (cfg : NodeManifest) (state : SystemState) (log : List String)
      → (to_end to cfg state log).exit_code ≡ 0
      → ((run_full_provisioning to cfg []).0 ≡ none)
        × ((to_end to cfg state log).on_source ≡ log)
        × ((to_end to cfg state log).on_target
            ≡ (restore_system_state to sha256_hex base64 state
                (run_full_provisioning to cfg []).1).1)
  unfolding migrate_to
  migrate_to_done to cfg state log h = elim (Option-cases (run_full_provisioning to cfg []).0) [
    | inr (e, p) ↦ absurd (ground (arith, h, p))
    | inl p ↦
        let r = restore-none to state (run_full_provisioning to cfg []).1 in
        (p, ground (arith, p, r), ground (arith, p, r))
  ]

  migrate_from_done :
      (from : Server) (target_ip : String) (cfg : NodeManifest)
      → (from_end from target_ip cfg).exit_code ≡ 0
      → (to : Server) × (connect (extracted from cfg).1 target_ip ≡ ok to)
        × (from_end from target_ip cfg
            ≡ to_end to cfg (extracted from cfg).0 (extracted from cfg).1)
  unfolding migrate_from
  migrate_from_done from target_ip cfg h =
      elim (Option-cases (validate_state (extracted from cfg).0)) [
        | inr (e, p) ↦ absurd (ground (arith, h, p))
        | inl p ↦ elim (Result-cases (connect (extracted from cfg).1 target_ip)) [
          | inr (e, q) ↦ absurd (ground (arith, h, p, q))
          | inl (to, q) ↦ (to, q, ground (arith, p, q))
        ]
      ]

  run_migration_done :
      (o : MigrateOptions)
      → (run_end o).exit_code ≡ 0
      → (cfg : NodeManifest) × (from : Server) × (load_config o.config_file ≡ ok cfg)
        × (connect [] o.source_ip ≡ ok from)
        × (run_end o ≡ from_end from o.target_ip cfg)
  unfolding run_migration
  run_migration_done o h = elim (Bool-cases (o.source_ip == "" || o.target_ip == "")) [
    | inl p ↦ absurd (ground (arith, h, p))
    | inr p ↦ elim (Result-cases (load_config o.config_file)) [
      | inr (e, q) ↦ absurd (ground (arith, h, p, q))
      | inl (cfg, q) ↦ elim (Result-cases (connect [] o.source_ip)) [
        | inr (e, r) ↦ absurd (ground (arith, h, p, q, r))
        | inl (from, r) ↦ (cfg, from, q, r, ground (arith, p, q, r))
      ]
    ]
  ]

  run-Migrated :
      (o : MigrateOptions)
      → (run_end o).exit_code ≡ 0
      → Migrated o (run_end o).on_source (run_end o).on_target
  run-Migrated o h =
      let (cfg, from, loaded, connected, e) = run_migration_done o h in
      let (to, reached, f) =
        migrate_from_done from o.target_ip cfg (sym (ap (λ (m : Migration). m.exit_code) e) ∙ h) in
      let whole = e ∙ f in
      let (done, source_end, target_end) =
        migrate_to_done to cfg (extracted from cfg).0 (extracted from cfg).1
          (sym (ap (λ (m : Migration). m.exit_code) whole) ∙ h) in
      record {
        cfg = cfg;
        from = from;
        to = to;
        loaded = loaded;
        from_connected = connected;
        to_connected = reached;
        provisioned = done;
        source_end = ap (λ (m : Migration). m.on_source) whole ∙ source_end;
        target_end = ap (λ (m : Migration). m.on_target) whole ∙ target_end;
      }

  cmd_migrate_done :
      (args : List String)
      → (migration args).exit_code ≡ 0
      → migration args ≡ run_end (parse_migrate args no_options)
  unfolding cmd_migrate
  cmd_migrate_done args h = elim (Bool-cases (ltb (length args) 4)) [
    | inl p ↦ absurd (ground (arith, h, p))
    | inr p ↦ rw (p, if◌then◌else◌) refl
  ]

  -- A migration that exits with status 0 has loaded the manifest and reached both servers; it has
  -- sent the source the commands of the extraction, has provisioned the target without an error, and
  -- has then restored on the target the state that was extracted.
  pub cmd_migrate-Migrated :
      (args : List String)
      → (migration args).exit_code ≡ 0
      → Migrated
          (parse_migrate args no_options)
          (migration args).on_source
          (migration args).on_target
  cmd_migrate-Migrated args h =
      let e = cmd_migrate_done args h in
      rw e (
        run-Migrated (parse_migrate args no_options)
          (sym (ap (λ (m : Migration). m.exit_code) e) ∙ h))

  -- For a manifest that was loaded, the check of the state never refuses what was extracted.
  pub validate_state-load :
      (read_file : String → Result String) (unmarshal : String → Result NodeManifest)
      (path : String) (cfg : NodeManifest) (s : Server)
      → load read_file unmarshal path ≡ ok cfg
      → validate_state (extracted s cfg).0 ≡ none
  unfolding validate_state extract_system_state
  validate_state-load read_file unmarshal path cfg s h =
      let l = (load-ok_iff read_file unmarshal path cfg).0 h in
      let same : cfg.node.hostname ≡ l.raw.node.hostname =
        ap (λ (n : NodeConfig). n.hostname) l.completed.node in
      let named : (cfg.node.hostname == "") ≡ false =
        rw same ((eq-false_iff l.raw.node.hostname "").1 l.valid.hostname) in
      rw (named, if◌then◌else◌) refl
