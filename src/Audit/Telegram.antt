-- ===== src/Audit/Telegram.antt =====
-- internal/audit/telegram.go and the message of audit.go. Posting a message is a parameter: the web
-- service answers with a status and a body, or the request fails.
use ghost_ship.Base.{
  ℕ, String, ◌<>◌, Error, none, some, List, [], ◌∷◌, ◌||◌, ltb, eqb, ◌==◌, if◌then◌else◌,
}
use ghost_ship.Base.Decimal.{format_nat}
use ghost_ship.Audit.Report.{SecurityAlert, AuditReport, TelegramConfig}

pub record TelegramMessage : Type 0 where
  pub chat_id : String
  pub text : String
  pub parse_mode : String

-- An address and the message that is posted there.
pub record Post : Type 0 where
  pub url : String
  pub message : TelegramMessage

pub data Answer : Type 0 where
  failed : String → Answer
  answered : ℕ → String → Answer

abbrev pub post_error : Answer → Error
post_error (failed e) = some ("telegram request failed: " <> e)
post_error (answered status body) =
    if eqb status 200
    then none
    else some ("telegram API error: " <> format_nat status <> " - " <> body)

-- The lines of the alerts of one level.
unfoldable pub alert_lines : String → List SecurityAlert → String
alert_lines level [] = ""
alert_lines level (a ∷ alerts) =
    (if a.level == level then "• `" <> a.issue <> "`: " <> a.details <> "\n" else "")
    <> alert_lines level alerts

abbrev pub section : ℕ → String → String → AuditReport → String
section n title level r =
    if ltb 0 n
    then title
      <> alert_lines level r.system_checks
      <> alert_lines level r.docker_checks
      <> alert_lines level r.nomad_checks
    else ""

abbrev pub summary : AuditReport → String
summary r =
    "*🔍 Security Audit Report*\n"
    <> ("Host: `" <> r.hostname <> "`\n")
    <> "\n*Summary:*\n"
    <> ("🔴 Critical: " <> format_nat r.critical_count <> "\n")
    <> ("🟡 Warnings: " <> format_nat r.warning_count <> "\n")
    <> ("✅ Passed: " <> format_nat r.passed_count <> "\n")

unfoldable pub build_audit_message : AuditReport → String
unfolding alert_lines
build_audit_message r =
    summary r
    <> section r.critical_count "\n*🔴 CRITICAL ISSUES:*\n" "CRITICAL" r
    <> section r.warning_count "\n*🟡 WARNINGS:*\n" "WARNING" r

module _ (post : Post → Answer) where
  -- What was posted, and the error.
  unfoldable pub send_telegram_message : String → String → String → List Post × Error
  send_telegram_message bot_token chat_id text =
      let p : Post = record {
        url = "https://api.telegram.org/bot" <> bot_token <> "/sendMessage";
        message = record { chat_id = chat_id; text = text; parse_mode = "Markdown" };
      } in
      (p ∷ [], post_error (post p))

  unfoldable pub send_audit_report : TelegramConfig → AuditReport → List Post × Error
  unfolding send_telegram_message build_audit_message
  send_audit_report cfg report =
      if cfg.bot_token == "" || cfg.chat_id == ""
      then ([], some "telegram config incomplete")
      else send_telegram_message cfg.bot_token cfg.chat_id (build_audit_message report)

  abbrev level_prefix : String → String
  level_prefix level =
      if level == "CRITICAL"
      then "[CRITICAL]"
      else if level == "WARNING"
      then "[WARNING]"
      else if level == "INFO"
      then "[INFO]"
      else if level == "SUCCESS"
      then "[PASS]"
      else ""

  unfoldable pub send_telegram_alert :
      String → String → String → String → String → List Post × Error
  unfolding send_telegram_message
  send_telegram_alert bot_token chat_id level title description =
      send_telegram_message bot_token chat_id
        ((level_prefix level <> " " <> title <> "\n") <> ("\n" <> description <> "\n"))
