-- ===== src/Audit/Message.antt =====
-- What the message of a report lists.
use text.Mathlib.TextLemmas.{append_assoc, append-nil, nil-append}
use mathlib.Core.Path.{ap₂}
use ghost_ship.Base.{
  ℕ, zero, suc, ◌+◌, length, map, selected, joined, String, ◌<◌, ◌<>◌, ◌≡◌, refl, ap, ◌∙◌, sym, inl,
  inr, Bool-cases, lt→ltb, List, [], ◌∷◌, ◌++◌, arith, ltb, ◌==◌, if◌then◌else◌,
}
use ghost_ship.Base.Decimal.{format_nat}
use ghost_ship.Audit.Report.{SecurityAlert, AuditReport}
use ghost_ship.Audit.Telegram.{alert_lines, summary, build_audit_message}
use ghost_ship.Audit.Counts.{at_level, all_at, IsCounted}

abbrev pub all_alerts : AuditReport → List SecurityAlert
all_alerts r = r.system_checks ++ (r.docker_checks ++ r.nomad_checks)

-- The reference: a line for each alert of one level, in their order.
abbrev line : SecurityAlert → String
line a = "• `" <> a.issue <> "`: " <> a.details <> "\n"

abbrev pub lines_of : String → List SecurityAlert → List String
lines_of level alerts = map line (selected (λ a. a.level == level) alerts)

abbrev pub numbers : String → ℕ → ℕ → ℕ → String
numbers host critical warnings passed = joined (
    "*🔍 Security Audit Report*\n"
    ∷ "Host: `"
    ∷ host
    ∷ "`\n"
    ∷ "\n*Summary:*\n"
    ∷ "🔴 Critical: "
    ∷ format_nat critical
    ∷ "\n"
    ∷ "🟡 Warnings: "
    ∷ format_nat warnings
    ∷ "\n"
    ∷ "✅ Passed: "
    ∷ format_nat passed
    ∷ "\n"
    ∷ [])

abbrev pub critical_part : List String → String
critical_part [] = ""
critical_part (l ∷ lines) = "\n*🔴 CRITICAL ISSUES:*\n" <> joined (l ∷ lines)

abbrev pub warning_part : ℕ → List String → String
warning_part zero lines = ""
warning_part (suc n) lines = "\n*🟡 WARNINGS:*\n" <> joined lines

alert_lines-append :
    (level : String) (xs ys : List SecurityAlert)
    → alert_lines level (xs ++ ys) ≡ alert_lines level xs <> alert_lines level ys
unfolding alert_lines
alert_lines-append level [] ys = sym (nil-append _)
alert_lines-append level (x ∷ xs) ys =
    ap (λ t. (if x.level == level then "• `" <> x.issue <> "`: " <> x.details <> "\n" else "") <> t)
      (alert_lines-append level xs ys)
    ∙ sym (append_assoc _ (alert_lines level xs) (alert_lines level ys))

alert_lines_none :
    (level : String) (xs : List SecurityAlert) → at_level level xs ≡ 0 → alert_lines level xs ≡ ""
unfolding alert_lines at_level
alert_lines_none level [] h = refl
alert_lines_none level (x ∷ xs) h = elim (Bool-cases (x.level == level)) [
  | inl p ↦ absurd (ground arith)
  | inr p ↦
      rw (p, alert_lines)
        (nil-append (alert_lines level xs) ∙ alert_lines_none level xs (ground arith))
]

alert_lines-joined :
    (level : String) (xs : List SecurityAlert) → alert_lines level xs ≡ joined (lines_of level xs)
unfolding alert_lines
alert_lines-joined level [] = refl
alert_lines-joined level (x ∷ xs) = elim (Bool-cases (x.level == level)) [
  | inl p ↦ rw (p, alert_lines) (ap (λ t. line x <> t) (alert_lines-joined level xs))
  | inr p ↦ rw (p, alert_lines) (nil-append (alert_lines level xs) ∙ alert_lines-joined level xs)
]

at_level-length :
    (level : String) (xs : List SecurityAlert) → at_level level xs ≡ length (lines_of level xs)
unfolding at_level
at_level-length level [] = refl
at_level-length level (x ∷ xs) = ground (arith, at_level-length level xs)

at_level-append :
    (level : String) (xs ys : List SecurityAlert)
    → at_level level (xs ++ ys) ≡ at_level level xs + at_level level ys
unfolding at_level
at_level-append level [] ys = omega arith
at_level-append level (x ∷ xs) ys = omega (arith, at_level-append level xs ys)

all_at-length :
    (level : String) (r : AuditReport) → all_at level r ≡ length (lines_of level (all_alerts r))
all_at-length level r = omega (
  arith,
  at_level-length level (all_alerts r),
  at_level-append level r.system_checks (r.docker_checks ++ r.nomad_checks),
  at_level-append level r.docker_checks r.nomad_checks,
)

all_lines :
    (level : String) (r : AuditReport)
    → alert_lines level r.system_checks
        <> alert_lines level r.docker_checks
        <> alert_lines level r.nomad_checks
      ≡ joined (lines_of level (all_alerts r))
all_lines level r =
    sym (
      alert_lines-append level r.system_checks (r.docker_checks ++ r.nomad_checks)
      ∙ ap (λ t. alert_lines level r.system_checks <> t)
          (alert_lines-append level r.docker_checks r.nomad_checks))
    ∙ alert_lines-joined level (all_alerts r)

critical-part :
    (n : ℕ) (lines : List String)
    → n ≡ length lines
    → (if ltb 0 n then "\n*🔴 CRITICAL ISSUES:*\n" <> joined lines else "") ≡ critical_part lines
critical-part n [] h = rw h refl
critical-part n (l ∷ lines) h = rw (h, lt→ltb 0 (length (l ∷ lines)) (omega arith)) refl

warning-part :
    (n : ℕ) (lines : List String)
    → (if ltb 0 n then "\n*🟡 WARNINGS:*\n" <> joined lines else "") ≡ warning_part n lines
warning-part zero lines = refl
warning-part (suc n) lines = rw (lt→ltb 0 (suc n) (omega arith)) refl

summary-numbers :
    (r : AuditReport)
    → summary r ≡ numbers r.hostname r.critical_count r.warning_count r.passed_count
summary-numbers r = sym (simp (append_assoc, append-nil))

-- If the counters of a report are right, its message has the host's name and three numbers, the first
-- of them that of the CRITICAL alerts of its three lists; then a line with the issue and the details
-- of each of these, in their order, under a heading if there is one; and then, if the counter of
-- warnings is not 0, such a line for each WARNING alert under theirs.
pub build_audit_message-listing :
    (r : AuditReport)
    → IsCounted r
    → let critical = lines_of "CRITICAL" (all_alerts r) in
      let warnings = lines_of "WARNING" (all_alerts r) in
      build_audit_message r
      ≡ numbers r.hostname (length critical) r.warning_count r.passed_count
        <> critical_part critical
        <> warning_part r.warning_count warnings
unfolding build_audit_message
build_audit_message-listing r k =
    let critical = lines_of "CRITICAL" (all_alerts r) in
    let counted : r.critical_count ≡ length critical = k.critical ∙ all_at-length "CRITICAL" r in
    rw (all_lines "CRITICAL" r, all_lines "WARNING" r, summary-numbers r)
      (ap₂ (λ n t. numbers r.hostname n r.warning_count r.passed_count <> t) counted
        (ap₂ (λ c w. c <> w) (critical-part r.critical_count critical counted)
          (warning-part r.warning_count (lines_of "WARNING" (all_alerts r)))))

-- A report that counts warnings, and none as critical, and has no alert of level WARNING announces
-- warnings and lists none.
pub build_audit_message_bare :
    (r : AuditReport)
    → r.critical_count ≡ 0
    → 0 < r.warning_count
    → all_at "WARNING" r ≡ 0
    → build_audit_message r ≡ summary r <> "\n*🟡 WARNINGS:*\n"
unfolding build_audit_message
build_audit_message_bare r none some_count h =
    rw
      (
        none,
        lt→ltb 0 r.warning_count some_count,
        alert_lines_none "WARNING" r.system_checks (omega arith),
        alert_lines_none "WARNING" r.docker_checks (omega arith),
        alert_lines_none "WARNING" r.nomad_checks (omega arith),
      )
      refl
