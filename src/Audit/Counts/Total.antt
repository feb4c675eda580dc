-- ===== src/Audit/Counts/Total.antt =====
-- The counters of a whole audit.
use ghost_ship.Base.{
  ℕ, String, ◌+◌, ◌≡◌, refl, inl, inr, ap, ◌∙◌, List, [], ◌∷◌, ◌++◌, arith, Option-cases,
}
use ghost_ship.Base.Int.{ℤ}
use ghost_ship.Base.Text.{trim_space}
use ghost_ship.Ssh.{Server}
use ghost_ship.Audit.Report.{AuditReport, not_installed}
use ghost_ship.Audit.Checks.{system_checks, docker_checks, nomad_checks}
use ghost_ship.Audit.{
  fail_system, fail_docker, fail_nomad, new_report, audit_system_security, audit_docker_security,
  audit_nomad_security, gather,
}
use ghost_ship.Audit.Counts.{
  at_level, titled, at_level-snoc, titled-snoc, IsCounted, IsGraded, covered, passed-IsCounted,
  fail_system-IsCounted, fail_docker-IsCounted, fail_nomad-IsCounted, covered-fail_system,
  covered-fail_docker, covered-fail_nomad, check_loop_inv, covered-check_loop,
  system_checks-IsGraded, docker_checks-IsGraded, nomad_checks-IsGraded,
}

abbrev no_docker : AuditReport → AuditReport
no_docker r = record r { docker_checks = r.docker_checks ++ not_installed "DOCKER" "Docker" ∷ [] }

abbrev no_nomad : AuditReport → AuditReport
no_nomad r = record r { nomad_checks = r.nomad_checks ++ not_installed "NOMAD" "Nomad" ∷ [] }

no_docker-counts :
    (r : AuditReport)
    → IsCounted r
    → IsCounted (no_docker r) × (covered (no_docker r) ≡ covered r + 4)
no_docker-counts r k =
    let a = not_installed "DOCKER" "Docker" in
    (
      record {
        critical = omega (arith, k.critical, at_level-snoc "CRITICAL" r.docker_checks a);
        others = omega (
          arith,
          k.others,
          at_level-snoc "WARNING" r.docker_checks a,
          at_level-snoc "INFO" r.docker_checks a,
          titled-snoc "Docker not installed" r.docker_checks a,
        );
      },
      omega (arith, titled-snoc "Docker not installed" r.docker_checks a),
    )

no_nomad-counts :
    (r : AuditReport)
    → IsCounted r
    → IsCounted (no_nomad r) × (covered (no_nomad r) ≡ covered r + 3)
no_nomad-counts r k =
    let a = not_installed "NOMAD" "Nomad" in
    (
      record {
        critical = omega (arith, k.critical, at_level-snoc "CRITICAL" r.nomad_checks a);
        others = omega (
          arith,
          k.others,
          at_level-snoc "WARNING" r.nomad_checks a,
          at_level-snoc "INFO" r.nomad_checks a,
          titled-snoc "Nomad not installed" r.nomad_checks a,
        );
      },
      omega (arith, titled-snoc "Nomad not installed" r.nomad_checks a),
    )

module _ (server : Server) where
  system-counts :
      (r : AuditReport) (log : List String)
      → IsCounted r
      → IsCounted (audit_system_security server r log).0
        × (covered (audit_system_security server r log).0 ≡ covered r + 5)
  unfolding audit_system_security
  system-counts r log k = (
    check_loop_inv server fail_system IsGraded IsCounted passed-IsCounted fail_system-IsCounted
        system_checks r log system_checks-IsGraded k,
    covered-check_loop server fail_system covered-fail_system system_checks r log
        system_checks-IsGraded,
  )

  docker-counts :
      (r : AuditReport) (log : List String)
      → IsCounted r
      → IsCounted (audit_docker_security server r log).0
        × (covered (audit_docker_security server r log).0 ≡ covered r + 4)
  unfolding audit_docker_security
  docker-counts r log k = elim (Option-cases (server log "which docker").err) [
    | inr (e, p) ↦ rw (p, audit_docker_security) (no_docker-counts r k)
    | inl p ↦
        rw (p, audit_docker_security)
          (
            check_loop_inv server fail_docker IsGraded IsCounted passed-IsCounted
                fail_docker-IsCounted docker_checks r ("which docker" ∷ log) docker_checks-IsGraded
                k,
            covered-check_loop server fail_docker covered-fail_docker docker_checks r
                ("which docker" ∷ log) docker_checks-IsGraded,
          )
  ]

  nomad-counts :
      (r : AuditReport) (log : List String)
      → IsCounted r
      → IsCounted (audit_nomad_security server r log).0
        × (covered (audit_nomad_security server r log).0 ≡ covered r + 3)
  unfolding audit_nomad_security
  nomad-counts r log k = elim (Option-cases (server log "which nomad").err) [
    | inr (e, p) ↦ rw (p, audit_nomad_security) (no_nomad-counts r k)
    | inl p ↦
        rw (p, audit_nomad_security)
          (
            check_loop_inv server fail_nomad IsGraded IsCounted passed-IsCounted
                fail_nomad-IsCounted nomad_checks r ("which nomad" ∷ log) nomad_checks-IsGraded k,
            covered-check_loop server fail_nomad covered-fail_nomad nomad_checks r
                ("which nomad" ∷ log) nomad_checks-IsGraded,
          )
  ]

  new_report-IsCounted : (name : String) (now : ℤ) → IsCounted (new_report name now)
  unfolding at_level titled
  new_report-IsCounted name now = record { critical = refl; others = refl }

  covered-new_report : (name : String) (now : ℤ) → covered (new_report name now) ≡ 0
  unfolding titled
  covered-new_report name now = refl

  -- Whatever the server answers, an audit makes all of its 12 checks, less the 4 for Docker or the 3
  -- for Nomad where that is not there, and counts each once, as passed, critical or a warning. The
  -- critical count is the number of CRITICAL alerts. The warning count is that of the WARNING and
  -- the INFO alerts together, less those that say that a component is not there.
  pub gather-counts :
      (now : ℤ) (log : List String)
      → IsCounted (gather server now log).0 × (covered (gather server now log).0 ≡ 12)
  unfolding gather
  gather-counts now log =
      let name : String = trim_space (server log "hostname").out in
      let r₀ : AuditReport = new_report name now in
      let (r₁, log₁) = audit_system_security server r₀ ("hostname" ∷ log) in
      let (r₂, log₂) = audit_docker_security server r₁ log₁ in
      let k₁ = system-counts r₀ ("hostname" ∷ log) (new_report-IsCounted name now) in
      let k₂ = docker-counts r₁ log₁ k₁.0 in
      let k₃ = nomad-counts r₂ log₂ k₂.0 in
      (
        k₃.0,
        k₃.1
            ∙ ap (λ (n : ℕ). n + 3)
                (k₂.1
                  ∙ ap (λ (n : ℕ). n + 4)
                      (k₁.1 ∙ ap (λ (n : ℕ). n + 5) (covered-new_report name now))),
      )
