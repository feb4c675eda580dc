-- ===== src/Cli/Output.antt =====
-- cmd/gs/main.go: what the commands print on the standard output; the log goes elsewhere.
pub mod Success
use ghost_ship.Base.{
  ℕ, String, ◌<>◌, Bool, Result, ok, err, none, some, List, [], ◌∷◌, ◌||◌, ◌==◌, count, ltb, length,
  if◌then◌else◌,
}
use ghost_ship.Base.Int.{ℤ, pos}
use ghost_ship.Base.Float.{Float64}
use ghost_ship.Base.Decimal.{format_nat}
use ghost_ship.Config.{NodeManifest}
use ghost_ship.Ssh.{Server}
use ghost_ship.Nomad.Json.{Fields}
use ghost_ship.Nomad.Docker.{ContainerConfig}
use ghost_ship.Audit.{run_security_audit}
use ghost_ship.Audit.Telegram.{Post, Answer}
use ghost_ship.Provisioner.{run_full_provisioning}
use ghost_ship.Extractor.State.{
  Runtime, SystemState, extract_system_state, validate_state, restore_system_state,
}
use ghost_ship.Extractor.Stream.{StreamState}
use ghost_ship.Cli.{
  Command, land, migrate, extract, audit, status, usage, main, land_config, MigrateOptions,
  no_options, parse_migrate,
}
use ghost_ship.Cli.Report.{print_report}

abbrev pub banner : String
banner =
    "\n  ____ _                      _        ____  _     _        \n"
    <> " / ___| |__   ___  ___| |_     / ___|| |__ (_)_ __  \n"
    <> "| |  _| '_ \\ / _ \\/ __| __|____\\___ \\| '_ \\| | '_ \\ \n"
    <> "| |_| | | | | (_) \\__ \\ |_|_____|___) | | | | | |_) |\n"
    <> " \\____|_| |_|\\___/|___/\\__|    |____/|_| |_|_| .__/ \n"
    <> "                                             |_|    \n"
    <> "   Velesys Infrastructure Engine | v0.1.0-alpha\n"

-- `printUsage`
abbrev pub usage_text : String
usage_text =
    "\nAvailable commands:\n"
    <> "  land <IP> [config]      - Provision a fresh VPS (Full hardening + Docker + Nomad)\n"
    <> "  extract <config>        - Extract system state for migration\n"
    <> "  migrate <from> <to>     - Migrate infrastructure from one server to another\n"
    <> "  audit <IP>              - Run comprehensive security audit\n"
    <> "  status <IP>             - Check node status\n\n" <> "Examples:\n"
    <> "  gs land 192.168.1.100 configs/relay-ru.yaml\n" <> "  gs extract configs/relay-ru.yaml\n"
    <> "  gs migrate --from 192.168.1.100 --to 192.168.1.101\n" <> "  gs audit 192.168.1.100\n"
    <> "  gs status 192.168.1.100\n"

-- What `main` prints behind the banner where it runs no command.
abbrev pub needs : String → List String → String
needs text [] = text
needs text (a ∷ args) = ""

unfoldable pub refusal : List String → String
refusal [] = usage_text
refusal (command ∷ args) =
    if command == "land"
    then needs "Usage: gs land <IP> [config]\n" args
    else if command == "migrate"
    then ""
    else if command == "extract"
    then needs "Usage: gs extract <config_file>\n" args
    else if command == "audit"
    then needs "Usage: gs audit <IP>\n" args
    else if command == "status"
    then needs "Usage: gs status <IP>\n" args
    else "Unknown command: " <> command <> "\n" <> usage_text

abbrev pub land_done : String
land_done = "\n✓ Landing sequence completed successfully!\n✓ Server is ready for deployment\n"

abbrev pub migrate_usage : String
migrate_usage = "Usage: gs migrate --from <source_ip> --to <target_ip> [--config config.yaml]\n"

abbrev pub phase_one : String
phase_one = "\n=== Phase 1: Extracting state from source ===\n"

abbrev pub phase_two : String
phase_two = "\n=== Phase 2: Provisioning target server ===\n"

abbrev pub phase_three : String
phase_three = "\n=== Phase 3: Restoring state to target ===\n"

abbrev pub migrate_success : String
migrate_success = "Migration completed successfully!"

abbrev pub migrate_done : MigrateOptions → SystemState → String
migrate_done o state =
    "\n✓ "
    <> migrate_success
    <> ("\n  Source: " <> o.source_ip <> "\n")
    <> ("  Target: " <> o.target_ip <> "\n")
    <> ("  Databases migrated: " <> format_nat (length state.databases) <> "\n")
    <> ("  Certificates migrated: " <> format_nat (length state.certificates) <> "\n")

abbrev pub status_text : String → String
status_text ip = "Checking status of " <> ip <> "\n" <> "Status command - not yet implemented\n"

module _ {W : Type 0} (float : Float64 W) where
  -- A size in megabytes, with two decimals.
  abbrev pub megabytes : ℕ → String
  megabytes n =
      let kilo = float.of_int (pos 1024) in
      float.fixed 2 (float.over (float.over (float.of_int (pos n)) kilo) kilo) <> " MB\n"

  abbrev pub extract_done : SystemState → StreamState → String
  extract_done state stream =
      "\n✓ System state extracted and encrypted\n"
      <> ("  Databases: " <> format_nat (length state.databases) <> "\n")
      <> ("  Certificates: " <> format_nat (length state.certificates) <> "\n")
      <> ("  Original size: " <> megabytes stream.size)
      <> ("  Encrypted size: " <> megabytes (count stream.content))
      <> ("  Compression ratio: "
          <> float.fixed 1 (
              float.times
                (float.over (float.of_int (pos (count stream.content)))
                  (float.of_int (pos stream.size)))
                (float.of_int (pos 100)))
          <> "%\n")

module _ (connect : List String → String → Result Server) where
  unfoldable pub audit_output : (Post → Answer) → ℤ → String → String
  audit_output post now ip = elim (connect [] ip) [
    | err _ ↦ ""
    | ok server ↦
        let ((report, _), _) = run_security_audit server post now none [] in print_report report
  ]

module _ (connect : List String → String → Result Server)
    (load_config : String → Result NodeManifest) (runtime : Runtime)
    (decode_container : String → Result ContainerConfig)
    (decode_objects : String → Result (List Fields)) (decode_object : String → Result Fields)
    (sha256_hex base64 : String → String) where
  abbrev pub state_and_log : Server → NodeManifest → SystemState × List String
  state_and_log s cfg =
      extract_system_state s runtime decode_container decode_objects decode_object cfg []

  unfoldable pub land_output : String → List String → String
  land_output ip args = elim (load_config (land_config args)) [
    | err _ ↦ ""
    | ok cfg ↦ elim (connect [] ip) [
      | err _ ↦ ""
      | ok server ↦ elim (run_full_provisioning server cfg []).0 [ some _ ↦ "" | none ↦ land_done ]
    ]
  ]

  -- The text behind the headings of the phases before.
  unfoldable pub target_output : MigrateOptions → Server → NodeManifest → SystemState → String
  target_output o target cfg state =
      let (failed, log) = run_full_provisioning target cfg [] in
      let (lost, _) = restore_system_state target sha256_hex base64 state log in
      elim failed [
        | some _ ↦ ""
        | none ↦ phase_three <> elim lost [ some _ ↦ "" | none ↦ migrate_done o state ]
      ]

  unfoldable pub valid_output : MigrateOptions → NodeManifest → SystemState → List String → String
  unfolding target_output
  valid_output o cfg state log = elim (connect log o.target_ip) [
    | err _ ↦ ""
    | ok target ↦ target_output o target cfg state
  ]

  unfoldable pub source_output : MigrateOptions → Server → NodeManifest → String
  unfolding valid_output
  source_output o source cfg =
      let (state, log) = state_and_log source cfg in
      elim (validate_state state) [ some _ ↦ "" | none ↦ phase_two <> valid_output o cfg state log ]

  unfoldable pub connected_output : MigrateOptions → NodeManifest → String
  unfolding source_output
  connected_output o cfg = elim (connect [] o.source_ip) [
    | err _ ↦ ""
    | ok source ↦ source_output o source cfg
  ]

  unfoldable pub options_output : MigrateOptions → String
  unfolding connected_output
  options_output o =
      if o.source_ip == "" || o.target_ip == ""
      then "Error: --from and --to are required\n"
      else elim (load_config o.config_file) [
        | err _ ↦ ""
        | ok cfg ↦ phase_one <> connected_output o cfg
      ]

  unfoldable pub migrate_output : List String → String
  unfolding options_output
  migrate_output args =
      if ltb (length args) 4 then migrate_usage else options_output (parse_migrate args no_options)

  module _ {W : Type 0} (float : Float64 W) (pack : SystemState → Result StreamState) where
    unfoldable pub extract_output : String → String
    extract_output config_file = elim (load_config config_file) [
      | err _ ↦ ""
      | ok cfg ↦ elim (connect [] cfg.node.ip) [
        | err _ ↦ ""
        | ok server ↦
            let state = (state_and_log server cfg).0 in
            elim (validate_state state) [
              | some _ ↦ ""
              | none ↦ elim (pack state) [
                | err _ ↦ ""
                | ok stream ↦ extract_done float state stream
              ]
            ]
      ]
    ]
