-- ===== src/Audit/Counts.antt =====
-- How the three counters of a report relate to its alerts.
pub mod Total
pub mod Listed
use ghost_ship.Base.{
  ℕ, String, ◌+◌, ◌*◌, ◌≡◌, refl, ◌≢◌, ◌⊎◌, inl, inr, Bool, true, false, none, some, Option, List,
  [], ◌∷◌, ◌++◌, length, All, arith, ◌==◌, eq_iff, if◌then◌else◌, Bool-cases, Option-cases,
}
use ghost_ship.Base.Int.{ℤ}
use ghost_ship.Ssh.{Reply, Server, Ssh, pure, run, ◌>>=◌}
use ghost_ship.Audit.Report.{SecurityAlert, AuditReport, not_installed}
use ghost_ship.Audit.Checks.{Check, system_checks, docker_checks, nomad_checks}
use ghost_ship.Audit.{
  alert_of, passed, counted, fail_system, fail_docker, fail_nomad, new_report, check_loop,
  audit_system_security, audit_docker_security, audit_nomad_security, gather,
}

-- How many alerts have a level, and how many have a title.
unfoldable pub at_level : String → List SecurityAlert → ℕ
at_level level [] = 0
at_level level (a ∷ alerts) = (if a.level == level then 1 else 0) + at_level level alerts

unfoldable pub titled : String → List SecurityAlert → ℕ
titled title [] = 0
titled title (a ∷ alerts) = (if a.issue == title then 1 else 0) + titled title alerts

at_level-snoc :
    (level : String) (alerts : List SecurityAlert) (a : SecurityAlert)
    → at_level level (alerts ++ a ∷ [])
      ≡ at_level level alerts + (if a.level == level then 1 else 0)
unfolding at_level
at_level-snoc level [] a = omega arith
at_level-snoc level (b ∷ alerts) a = omega (arith, at_level-snoc level alerts a)

titled-snoc :
    (title : String) (alerts : List SecurityAlert) (a : SecurityAlert)
    → titled title (alerts ++ a ∷ []) ≡ titled title alerts + (if a.issue == title then 1 else 0)
unfolding titled
titled-snoc title [] a = omega arith
titled-snoc title (b ∷ alerts) a = omega (arith, titled-snoc title alerts a)

abbrev pub all_at : String → AuditReport → ℕ
all_at level r =
    at_level level r.system_checks + at_level level r.docker_checks + at_level level r.nomad_checks

abbrev pub docker_absent : AuditReport → ℕ
docker_absent r = titled "Docker not installed" r.docker_checks

abbrev pub nomad_absent : AuditReport → ℕ
nomad_absent r = titled "Nomad not installed" r.nomad_checks

-- The checks that were made, and those that fell away with a component that is not there.
abbrev pub covered : AuditReport → ℕ
covered r =
    r.passed_count + r.critical_count + r.warning_count + 4 * docker_absent r + 3 * nomad_absent r

-- The counter of critical issues is the number of CRITICAL alerts. The counter of warnings is that
-- of all others, also of INFO, but for those that say that a component is not there.
pub record IsCounted (r : AuditReport) : Type 0 where
  pub critical : r.critical_count ≡ all_at "CRITICAL" r
  pub others :
      r.warning_count + docker_absent r + nomad_absent r ≡ all_at "WARNING" r + all_at "INFO" r

abbrev is_level : String → Check → ℕ
is_level level c = if c.level == level then 1 else 0

-- What the tables of checks have in common: one of three levels, and no title of another alert.
pub record IsGraded (c : Check) : Type 0 where
  pub one_level : is_level "CRITICAL" c + is_level "WARNING" c + is_level "INFO" c ≡ 1
  pub no_docker : (c.name == "Docker not installed") ≡ false
  pub no_nomad : (c.name == "Nomad not installed") ≡ false

fail_docker-IsCounted :
    (c : Check) (r : AuditReport) → IsGraded c → IsCounted r → IsCounted (fail_docker c r)
fail_docker-IsCounted c r g k =
    let a = alert_of "DOCKER" c.level c in
    record {
      critical =
          ground (arith, g.one_level, k.critical, at_level-snoc "CRITICAL" r.docker_checks a);
      others = ground (
        arith,
        g.one_level,
        g.no_docker,
        k.others,
        at_level-snoc "WARNING" r.docker_checks a,
        at_level-snoc "INFO" r.docker_checks a,
        titled-snoc "Docker not installed" r.docker_checks a,
      );
    }

fail_nomad-IsCounted :
    (c : Check) (r : AuditReport) → IsGraded c → IsCounted r → IsCounted (fail_nomad c r)
fail_nomad-IsCounted c r g k =
    let a = alert_of "NOMAD" c.level c in
    record {
      critical = ground (arith, g.one_level, k.critical, at_level-snoc "CRITICAL" r.nomad_checks a);
      others = ground (
        arith,
        g.one_level,
        g.no_nomad,
        k.others,
        at_level-snoc "WARNING" r.nomad_checks a,
        at_level-snoc "INFO" r.nomad_checks a,
        titled-snoc "Nomad not installed" r.nomad_checks a,
      );
    }

fail_system-IsCounted :
    (c : Check) (r : AuditReport) → IsGraded c → IsCounted r → IsCounted (fail_system c r)
fail_system-IsCounted c r g k =
    let a = alert_of "SYSTEM" "WARNING" c in
    record {
      critical = omega (arith, k.critical, at_level-snoc "CRITICAL" r.system_checks a);
      others = omega (
        arith,
        k.others,
        at_level-snoc "WARNING" r.system_checks a,
        at_level-snoc "INFO" r.system_checks a,
      );
    }

passed-IsCounted : (r : AuditReport) → IsCounted r → IsCounted (passed r)
passed-IsCounted r k = record { critical = k.critical; others = k.others }

-- An invariant of a loop over checks of a kind.
module _ (server : Server) (fail : Check → AuditReport → AuditReport) (Q : Check → Type 0)
    (P : AuditReport → Type 0) (keep_passed : (r : AuditReport) → P r → P (passed r))
    (keep_fail : (c : Check) (r : AuditReport) → Q c → P r → P (fail c r)) where
  check_loop_inv :
      (cs : List Check) (r : AuditReport) (log : List String)
      → All Q cs
      → P r
      → P (check_loop server fail cs r log).0
  unfolding check_loop
  check_loop_inv [] r log q k = k
  check_loop_inv (c ∷ cs) r log q k = elim (Bool-cases (c.pass (server log c.cmd).out)) [
    | inl p ↦ rw (p, check_loop) (check_loop_inv cs (passed r) (c.cmd ∷ log) q.1 (keep_passed r k))
    | inr p ↦
        rw (p, check_loop) (check_loop_inv cs (fail c r) (c.cmd ∷ log) q.1 (keep_fail c r q.0 k))
  ]

module _ (server : Server) (fail : Check → AuditReport → AuditReport)
    (adds_one : (c : Check) (r : AuditReport)
      → IsGraded c
      → covered (fail c r) ≡ covered r + 1) where
  covered-check_loop :
      (cs : List Check) (r : AuditReport) (log : List String)
      → All IsGraded cs
      → covered (check_loop server fail cs r log).0 ≡ covered r + length cs
  unfolding check_loop
  covered-check_loop [] r log g = omega arith
  covered-check_loop (c ∷ cs) r log g = elim (Bool-cases (c.pass (server log c.cmd).out)) [
    | inl p ↦ rw (p, check_loop) (omega (arith, covered-check_loop cs (passed r) (c.cmd ∷ log) g.1))
    | inr p ↦
        rw (p, check_loop)
          (omega (arith, covered-check_loop cs (fail c r) (c.cmd ∷ log) g.1, adds_one c r g.0))
  ]

covered-fail_system :
    (c : Check) (r : AuditReport) → IsGraded c → covered (fail_system c r) ≡ covered r + 1
covered-fail_system c r g = omega arith

covered-fail_docker :
    (c : Check) (r : AuditReport) → IsGraded c → covered (fail_docker c r) ≡ covered r + 1
covered-fail_docker c r g = ground (
  arith,
  g.no_docker,
  titled-snoc "Docker not installed" r.docker_checks (alert_of "DOCKER" c.level c),
)

covered-fail_nomad :
    (c : Check) (r : AuditReport) → IsGraded c → covered (fail_nomad c r) ≡ covered r + 1
covered-fail_nomad c r g = ground (
  arith,
  g.no_nomad,
  titled-snoc "Nomad not installed" r.nomad_checks (alert_of "NOMAD" c.level c),
)

system_checks-IsGraded : All IsGraded system_checks
system_checks-IsGraded = ground arith

docker_checks-IsGraded : All IsGraded docker_checks
docker_checks-IsGraded = ground arith

nomad_checks-IsGraded : All IsGraded nomad_checks
nomad_checks-IsGraded = ground arith
