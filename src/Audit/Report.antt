-- ===== src/Audit/Report.antt =====
-- internal/audit/audit.go: the types. No alert of the audit is given a time stamp, so it is 0.
use ghost_ship.Base.{ℕ, String, ◌<>◌, List}
use ghost_ship.Base.Int.{ℤ, pos}

pub record SecurityAlert : Type 0 where
  pub level : String
  pub component : String
  pub issue : String
  pub details : String
  pub timestamp : ℤ

pub record AuditReport : Type 0 where
  pub hostname : String
  pub timestamp : ℤ
  pub system_checks : List SecurityAlert
  pub docker_checks : List SecurityAlert
  pub nomad_checks : List SecurityAlert
  pub critical_count : ℕ
  pub warning_count : ℕ
  pub passed_count : ℕ

pub record TelegramConfig : Type 0 where
  pub bot_token : String
  pub chat_id : String

-- The alert for a component that is not there; it is counted nowhere.
abbrev pub not_installed : String → String → SecurityAlert
not_installed component name = record {
  level = "INFO";
  component = component;
  issue = name <> " not installed";
  details = name <> " is not installed on this system";
  timestamp = pos 0;
}
