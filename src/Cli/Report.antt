-- ===== src/Cli/Report.antt =====
-- cmd/gs/main.go: the report that `audit` prints, behind the progress that is logged.
use ghost_ship.Base.{String, ◌<>◌, List, [], ◌∷◌, ◌++◌, length}
use ghost_ship.Base.Decimal.{format_nat, format_int}
use ghost_ship.Audit.Report.{SecurityAlert, AuditReport}

abbrev pub audit_alerts : AuditReport → List SecurityAlert
audit_alerts r = (r.system_checks ++ r.docker_checks) ++ r.nomad_checks

abbrev pub heading : AuditReport → String
heading r =
    "\n=== Security Audit Report ===\n"
    <> ("Hostname: " <> r.hostname <> "\n")
    <> ("Timestamp: " <> format_int r.timestamp <> "\n\n")
    <> ("System Security: " <> format_nat (length r.system_checks) <> " checks\n")
    <> ("Docker Security: " <> format_nat (length r.docker_checks) <> " checks\n")
    <> ("Nomad Security: " <> format_nat (length r.nomad_checks) <> " checks\n")

abbrev pub alert_line : SecurityAlert → String
alert_line a = "  " <> a.level <> " (" <> a.component <> "): " <> a.issue <> "\n"

abbrev pub report_lines : List SecurityAlert → String
report_lines [] = ""
report_lines (a ∷ alerts) = alert_line a <> report_lines alerts

unfoldable pub verdict : AuditReport → String
verdict r = elim (audit_alerts r) [
  | [] ↦ "\n✓ All checks passed!\n"
  | a ∷ alerts ↦
      "\nAlerts: "
      <> format_nat (length (a ∷ alerts))
      <> " (Critical: "
      <> format_nat r.critical_count
      <> ", Warnings: "
      <> format_nat r.warning_count
      <> ", Passed: "
      <> format_nat r.passed_count
      <> ")\n"
      <> report_lines (a ∷ alerts)
]

unfoldable pub print_report : AuditReport → String
unfolding verdict
print_report r = heading r <> verdict r
