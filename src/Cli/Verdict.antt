-- ===== src/Cli/Verdict.antt =====
-- What the report of an audit says of the checks.
use ghost_ship.Base.{
  ℕ, zero, suc, ◌<◌, ◌⊎◌, Result, some, inl, inr, Result-cases, String, ◌<>◌, ◌+◌, ◌≡◌, refl, ap,
  ◌∙◌, List, [], ◌∷◌, ◌++◌, append_assoc, length, length-append, map, joined, arith,
}
use ghost_ship.Base.Int.{ℤ}
use ghost_ship.Base.Decimal.{format_nat}
use ghost_ship.Ssh.{Server}
use ghost_ship.Audit.Report.{SecurityAlert, AuditReport}
use ghost_ship.Audit.{gather, run_security_audit}
use ghost_ship.Audit.Telegram.{Post, Answer}
use ghost_ship.Cli.Single.{cmd_audit}
use ghost_ship.Audit.Counts.{docker_absent, nomad_absent}
use ghost_ship.Audit.Counts.Total.{gather-counts}
use ghost_ship.Audit.Counts.Listed.{listed, gather-IsListed}
use ghost_ship.Cli.Report.{audit_alerts, heading, report_lines, verdict, print_report}

length-audit_alerts : (r : AuditReport) → length (audit_alerts r) ≡ listed r
length-audit_alerts r = omega (
  arith,
  length-append (r.system_checks ++ r.docker_checks) r.nomad_checks,
  length-append r.system_checks r.docker_checks,
)

nat_cases : (n : ℕ) → (n ≡ 0) ⊎ ((k : ℕ) × (n ≡ suc k))
nat_cases zero = inl refl
nat_cases (suc k) = inr (k, refl)

abbrev pub all_passed : String
all_passed = "\n✓ All checks passed!\n"

-- The reference: the line of an alert.
abbrev pub line : SecurityAlert → String
line a = "  " <> a.level <> " (" <> a.component <> "): " <> a.issue <> "\n"

report_lines-joined : (alerts : List SecurityAlert) → report_lines alerts ≡ joined (map line alerts)
report_lines-joined [] = refl
report_lines-joined (a ∷ alerts) = ap (λ t. line a <> t) (report_lines-joined alerts)

module _ (rest : List SecurityAlert → String) where
  abbrev told : List SecurityAlert → String
  told alerts = elim alerts [ [] ↦ all_passed | a ∷ others ↦ "\nAlerts: " <> rest (a ∷ others) ]

  told_none : (alerts : List SecurityAlert) → length alerts ≡ 0 → told alerts ≡ all_passed
  told_none [] h = refl
  told_none (a ∷ others) h = absurd (omega (arith, h))

  told_some :
      (alerts : List SecurityAlert) (n : ℕ)
      → length alerts ≡ suc n
      → told alerts ≡ "\nAlerts: " <> rest alerts
  told_some [] n h = absurd (omega (arith, h))
  told_some (a ∷ others) n h = refl

-- What the report says of the checks, and how many alerts it counts.
abbrev pub announced : ℕ → AuditReport → String
announced n r =
    "\nAlerts: "
    <> (format_nat n
        <> " (Critical: "
        <> format_nat r.critical_count
        <> ", Warnings: "
        <> format_nat r.warning_count
        <> ", Passed: "
        <> format_nat r.passed_count
        <> ")\n"
        <> joined (map line (r.system_checks ++ r.docker_checks ++ r.nomad_checks)))

abbrev rest_of : AuditReport → List SecurityAlert → String
rest_of r alerts =
    format_nat (length alerts)
    <> " (Critical: "
    <> format_nat r.critical_count
    <> ", Warnings: "
    <> format_nat r.warning_count
    <> ", Passed: "
    <> format_nat r.passed_count
    <> ")\n"
    <> report_lines alerts

verdict_none : (r : AuditReport) → listed r ≡ 0 → verdict r ≡ all_passed
unfolding verdict
verdict_none r h = told_none (rest_of r) (audit_alerts r) (length-audit_alerts r ∙ h)

verdict_some : (r : AuditReport) (n : ℕ) → listed r ≡ suc n → verdict r ≡ announced (listed r) r
unfolding verdict
verdict_some r n h =
    told_some (rest_of r) (audit_alerts r) n (length-audit_alerts r ∙ h)
    ∙ rw
        (
          length-audit_alerts r,
          report_lines-joined (audit_alerts r),
          append_assoc r.system_checks r.docker_checks r.nomad_checks,
        )
        refl

-- What a report says, by the number of checks that passed.
abbrev pub Reported : AuditReport → Type 0
Reported r =
    ((r.passed_count ≡ 12) × (print_report r ≡ heading r <> all_passed))
    ⊎ ((r.passed_count < 12)
        × (print_report r
            ≡ heading r
              <> announced (r.critical_count + r.warning_count + docker_absent r + nomad_absent r)
                  r))

gather-Reported :
    (server : Server) (now : ℤ) (log : List String) → Reported (gather server now log).0
unfolding print_report
gather-Reported server now log =
    let r = (gather server now log).0 in
    let k = gather-IsListed server now log in
    let (_, c) = gather-counts server now log in
    elim (nat_cases (listed r)) [
      | inl p ↦ inl (omega (arith, k, c, p), ap (λ t. heading r <> t) (verdict_none r p))
      | inr (n, p) ↦ inr (
        omega (arith, k, c, p),
        ap (λ t. heading r <> t) (verdict_some r n p ∙ ap (λ m. announced m r) k),
      )
    ]

-- Whatever a server answers, an audit that makes a report exits with status 0. The report says behind
-- its heading that all checks passed if all 12 did; otherwise it says how many alerts there are, which
-- is the number counted as critical or as a warning and one for each of Docker and Nomad that is not
-- there, gives the three counters, and has a line for each alert of the three lists, in their order.
pub cmd_audit-verdict :
    (connect : List String → String → Result Server) (post : Post → Answer) (now : ℤ) (ip : String)
    (r : AuditReport)
    → (cmd_audit connect post now ip).made ≡ some r
    → ((cmd_audit connect post now ip).exit_code ≡ 0) × Reported r
unfolding cmd_audit run_security_audit
cmd_audit-verdict connect post now ip r h = elim (Result-cases (connect [] ip)) [
  | inr (e, p) ↦ absurd (ground (arith, h, p))
  | inl (server, p) ↦
      let same : (gather server now []).0 ≡ r = ground (arith, h, p) in
      (ground (arith, p), rw same at (gather-Reported server now []))
]
