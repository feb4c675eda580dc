-- ===== src/Cli/Single.antt =====
-- cmd/gs/main.go: the commands `extract` and `audit`, of one server. Report has what `audit` prints.
use ghost_ship.Base.{
  ℕ, String, ◌≡◌, Result, ok, err, Option, none, some, List, [], arith, inl, inr, Option-cases,
  Result-cases, sym, ap, ◌∙◌,
}
use ghost_ship.Base.Int.{ℤ}
use ghost_ship.Config.{NodeManifest}
use ghost_ship.Ssh.{Server}
use ghost_ship.Nomad.Json.{Fields}
use ghost_ship.Nomad.Docker.{ContainerConfig}
use ghost_ship.Audit.{run_security_audit}
use ghost_ship.Audit.Report.{AuditReport}
use ghost_ship.Audit.Telegram.{Post, Answer}
use ghost_ship.Extractor.State.{Runtime, SystemState, extract_system_state, validate_state}
use ghost_ship.Extractor.Stream.{StreamState}

-- The exit status, what the command has made if the status is 0, and the commands sent.
pub record Ended (A : Type 0) : Type 0 where
  pub exit_code : ℕ
  pub made : Option A
  pub log : List String

abbrev pub failed : {A : Type 0} → List String → Ended A
failed log = record { exit_code = 1; made = none; log = log }

module _ (connect : List String → String → Result Server) where
  unfoldable pub cmd_audit : (Post → Answer) → ℤ → String → Ended AuditReport
  cmd_audit post now ip = elim (connect [] ip) [
    | err _ ↦ failed []
    | ok server ↦
        let ((report, _), log) = run_security_audit server post now none [] in
        record { exit_code = 0; made = some report; log = log }
  ]

module _ (connect : List String → String → Result Server)
    (load_config : String → Result NodeManifest) (runtime : Runtime)
    (decode_container : String → Result ContainerConfig)
    (decode_objects : String → Result (List Fields)) (decode_object : String → Result Fields)
    (pack : SystemState → Result StreamState) where
  abbrev pub state_and_log : Server → NodeManifest → SystemState × List String
  state_and_log s cfg =
      extract_system_state s runtime decode_container decode_objects decode_object cfg []

  -- The end of `extract`, with the state that was extracted.
  unfoldable pub pack_state : SystemState → List String → Ended StreamState
  pack_state state log = elim (validate_state state) [
    | some _ ↦ failed log
    | none ↦ elim (pack state) [
      | err _ ↦ failed log
      | ok stream ↦ record { exit_code = 0; made = some stream; log = log }
    ]
  ]

  unfoldable pub cmd_extract : String → Ended StreamState
  unfolding pack_state
  cmd_extract config_file = elim (load_config config_file) [
    | err _ ↦ failed []
    | ok cfg ↦ elim (connect [] cfg.node.ip) [
      | err _ ↦ failed []
      | ok server ↦ pack_state (state_and_log server cfg).0 (state_and_log server cfg).1
    ]
  ]

  -- An extraction from the manifest to the packed stream.
  pub record Extracted (config_file : String) (stream : StreamState) (log : List String)
      : Type 0 where
    pub cfg : NodeManifest
    pub server : Server
    pub loaded : load_config config_file ≡ ok cfg
    pub connected : connect [] cfg.node.ip ≡ ok server
    pub valid : validate_state (state_and_log server cfg).0 ≡ none
    pub packed : pack (state_and_log server cfg).0 ≡ ok stream
    pub log_end : log ≡ (state_and_log server cfg).1

  pack_state_done :
      (state : SystemState) (log : List String) {stream : StreamState}
      → (pack_state state log).made ≡ some stream
      → (validate_state state ≡ none)
        × (pack state ≡ ok stream)
        × ((pack_state state log).log ≡ log)
  unfolding pack_state
  pack_state_done state log h = elim (Option-cases (validate_state state)) [
    | inr (e, p) ↦ absurd (ground (arith, h, p))
    | inl p ↦ elim (Result-cases (pack state)) [
      | inr (e, q) ↦ absurd (ground (arith, h, p, q))
      | inl (stream', q) ↦ (p, ground (arith, h, p, q), ground (arith, p, q))
    ]
  ]

  -- An extraction that makes a stream has loaded the manifest and reached the server that it names,
  -- and the stream is the packed state of that server, which passed the validation.
  pub cmd_extract-Extracted :
      (config_file : String) {stream : StreamState}
      → (cmd_extract config_file).made ≡ some stream
      → Extracted config_file stream (cmd_extract config_file).log
  unfolding cmd_extract
  cmd_extract-Extracted config_file h = elim (Result-cases (load_config config_file)) [
    | inr (e, p) ↦ absurd (ground (arith, h, p))
    | inl (cfg, p) ↦ elim (Result-cases (connect [] cfg.node.ip)) [
      | inr (e, q) ↦ absurd (ground (arith, h, p, q))
      | inl (server, q) ↦
          let state : SystemState = (state_and_log server cfg).0 in
          let log : List String = (state_and_log server cfg).1 in
          let e : cmd_extract config_file ≡ pack_state state log = ground (arith, p, q) in
          let (valid, packed, end) =
            pack_state_done state log (sym (ap (λ (r : Ended StreamState). r.made) e) ∙ h) in
          record {
            cfg = cfg;
            server = server;
            loaded = p;
            connected = q;
            valid = valid;
            packed = packed;
            log_end = ap (λ (r : Ended StreamState). r.log) e ∙ end;
          }
    ]
  ]
