-- ===== src/Audit.antt =====
-- internal/audit/audit.go: the checks, their grading and the whole audit. The clock is a parameter,
-- and so is the web service behind the Telegram messages.
pub mod Report
pub mod Checks
pub mod Telegram
pub mod Counts
pub mod Message
pub mod Fail2Ban
use ghost_ship.Base.{
  String, ◌<>◌, Bool, true, false, not, ◌&&◌, Error, none, some, Option, List, [], ◌∷◌, ◌++◌, ◌+◌,
  ◌==◌, if◌then◌else◌,
}
use ghost_ship.Base.Text.{trim_space}
use ghost_ship.Base.Int.{ℤ, pos}
use ghost_ship.Ssh.{Reply, Server, Ssh, pure, run, ◌>>=◌}
use ghost_ship.Audit.Report.{SecurityAlert, AuditReport, TelegramConfig, not_installed}
use ghost_ship.Audit.Checks.{Check, system_checks, docker_checks, nomad_checks}
use ghost_ship.Audit.Telegram.{Post, Answer, send_audit_report}

-- A check that failed, in the words of the report.
abbrev pub alert_of : String → String → Check → SecurityAlert
alert_of component level c = record {
  level = level;
  component = component;
  issue = c.name;
  details = c.issue;
  timestamp = pos 0;
}

abbrev pub passed : AuditReport → AuditReport
passed r = record r { passed_count = r.passed_count + 1 }

-- All but CRITICAL counts as a warning.
abbrev pub counted : Check → AuditReport → AuditReport
counted c r =
    if c.level == "CRITICAL"
    then record r { critical_count = r.critical_count + 1 }
    else record r { warning_count = r.warning_count + 1 }

-- What the three loops do with a check that failed.
abbrev pub fail_system : Check → AuditReport → AuditReport
fail_system c r = record r {
  warning_count = r.warning_count + 1;
  system_checks = r.system_checks ++ alert_of "SYSTEM" "WARNING" c ∷ [];
}

abbrev pub fail_docker : Check → AuditReport → AuditReport
fail_docker c r = record (counted c r) {
  docker_checks = r.docker_checks ++ alert_of "DOCKER" c.level c ∷ [];
}

abbrev pub fail_nomad : Check → AuditReport → AuditReport
fail_nomad c r = record (counted c r) {
  nomad_checks = r.nomad_checks ++ alert_of "NOMAD" c.level c ∷ [];
}

-- The report before the first check.
abbrev pub new_report : String → ℤ → AuditReport
new_report hostname now = record {
  hostname = hostname;
  timestamp = now;
  system_checks = [];
  docker_checks = [];
  nomad_checks = [];
  critical_count = 0;
  warning_count = 0;
  passed_count = 0;
}

module _ (server : Server) where
  -- The loop over a table of checks.
  unfoldable pub check_loop :
      (Check → AuditReport → AuditReport) → List Check → AuditReport → Ssh AuditReport
  check_loop fail [] report log = (report, log)
  check_loop fail (c ∷ cs) report log =
      check_loop fail cs (if c.pass (server log c.cmd).out then passed report else fail c report)
        (c.cmd ∷ log)

  unfoldable pub audit_system_security : AuditReport → Ssh AuditReport
  unfolding check_loop
  audit_system_security = check_loop fail_system system_checks

  unfoldable pub audit_docker_security : AuditReport → Ssh AuditReport
  unfolding check_loop
  audit_docker_security report = do
    found ← run server "which docker"
    elim found.err [
      | some _ ↦ pure (record report {
        docker_checks = report.docker_checks ++ not_installed "DOCKER" "Docker" ∷ [];
      })
      | none ↦ check_loop fail_docker docker_checks report
    ]

  unfoldable pub audit_nomad_security : AuditReport → Ssh AuditReport
  unfolding check_loop
  audit_nomad_security report = do
    found ← run server "which nomad"
    elim found.err [
      | some _ ↦ pure (record report {
        nomad_checks = report.nomad_checks ++ not_installed "NOMAD" "Nomad" ∷ [];
      })
      | none ↦ check_loop fail_nomad nomad_checks report
    ]

  unfoldable pub gather : ℤ → Ssh AuditReport
  gather now = do
    hostname ← run server "hostname"
    r₁ ← audit_system_security (new_report (trim_space hostname.out) now)
    r₂ ← audit_docker_security r₁
    audit_nomad_security r₂

  -- The report and the messages posted; a failure to post is only logged.
  unfoldable pub run_security_audit :
      (Post → Answer) → ℤ → Option TelegramConfig → Ssh (AuditReport × List Post)
  unfolding gather
  run_security_audit post now none = do report ← gather now; pure (report, [])
  run_security_audit post now (some cfg) = do
    report ← gather now
    pure (report, if not (cfg.bot_token == "") then (send_audit_report post cfg report).0 else [])
