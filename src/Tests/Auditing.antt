-- ===== src/Tests/Auditing.antt =====
-- Audits of servers with fixed answers.
use ghost_ship.Base.{◌<>◌, ◌≡◌, refl, none, some, [], ◌∷◌, arith, ◌==◌, if◌then◌else◌}
use ghost_ship.Base.Text.{trim_space, has_infix}
use ghost_ship.Base.Int.{pos}
use ghost_ship.Ssh.{Server}
use ghost_ship.Audit.{
  passed, fail_system, new_report, check_loop, gather, audit_system_security, audit_docker_security,
  audit_nomad_security,
}
use ghost_ship.Audit.Report.{AuditReport}
use ghost_ship.Audit.Checks.{fail2ban_check}
use ghost_ship.Audit.Telegram.{summary, build_audit_message}
use ghost_ship.Audit.Counts.{IsCounted, covered, at_level}
use ghost_ship.Audit.Counts.Total.{gather-counts}
use ghost_ship.Audit.Message.{
  all_alerts, lines_of, numbers, critical_part, warning_part, build_audit_message-listing,
  build_audit_message_bare,
}
use ghost_ship.Cli.Report.{print_report}
use ghost_ship.Cli.Verdict.{Reported, cmd_audit-verdict}
use ghost_ship.Cli.Single.{cmd_audit}
use ghost_ship.Audit.{run_security_audit}
use ghost_ship.Audit.Telegram.{Post, Answer}
use ghost_ship.Base.{Result, String, List, ok, length}
use ghost_ship.Base.Decimal.{format_nat, format_int}
use ghost_ship.Audit.Fail2Ban.{check_loop-fail2ban_inactive}

-- A server without Docker, that prints the same for every command.
host : Server
host log cmd = record {
  out = "inactive\n";
  err = if cmd == "which docker" then some "exit status 1" else none;
}

report : AuditReport
report = (gather host (pos 0) []).0

gathered : (report.passed_count ≡ 8) × (report.warning_count ≡ 0) × (report.critical_count ≡ 0)
unfolding report gather audit_system_security audit_docker_security audit_nomad_security host
    has_infix trim_space
gathered = (refl, refl, refl)

gather-counts_example :
    IsCounted (gather host (pos 0) []).0 × (covered (gather host (pos 0) []).0 ≡ 12)
gather-counts_example = gather-counts host (pos 0) []

build_audit_message-listing_example :
    let critical = lines_of "CRITICAL" (all_alerts report) in
    build_audit_message report
    ≡ numbers report.hostname (length critical) report.warning_count report.passed_count
      <> critical_part critical
      <> warning_part report.warning_count (lines_of "WARNING" (all_alerts report))
unfolding report
build_audit_message-listing_example =
    build_audit_message-listing (gather host (pos 0) []).0 (gather-counts host (pos 0) []).0

check_loop-fail2ban_inactive_example :
    check_loop host fail_system (fail2ban_check ∷ []) (new_report "a" (pos 0)) []
    ≡ check_loop host fail_system [] (passed (new_report "a" (pos 0))) (fail2ban_check.cmd ∷ [])
unfolding host has_infix
check_loop-fail2ban_inactive_example =
    check_loop-fail2ban_inactive host [] (new_report "a" (pos 0)) [] refl

-- Only the check of level INFO has failed.
abbrev bare : AuditReport
bare = record (new_report "a" (pos 0)) { warning_count = 1 }

build_audit_message_bare_example : build_audit_message bare ≡ summary bare <> "\n*🟡 WARNINGS:*\n"
unfolding at_level
build_audit_message_bare_example = build_audit_message_bare bare refl (omega arith) refl

abbrev posted : Post → Answer
posted post = Answer.failed "no network"

abbrev connect : List String → String → Result Server
connect before ip = ok host

made : (cmd_audit connect posted (pos 0) "10.0.0.1").made ≡ some report
unfolding cmd_audit run_security_audit report
made = refl

cmd_audit-verdict_example :
    ((cmd_audit connect posted (pos 0) "10.0.0.1").exit_code ≡ 0) × Reported report
cmd_audit-verdict_example = cmd_audit-verdict connect posted (pos 0) "10.0.0.1" report made

told :
    print_report (record (new_report "relay" (pos 7)) { passed_count = 12 })
    ≡ "\n=== Security Audit Report ===\nHostname: relay\nTimestamp: 7\n\nSystem Security: 0 checks\nDocker Security: 0 checks\nNomad Security: 0 checks\n\n✓ All checks passed!\n"
unfolding print_report format_nat format_int
told = refl
