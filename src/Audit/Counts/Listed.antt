-- ===== src/Audit/Counts/Listed.antt =====
-- How many alerts a whole audit lists.
use ghost_ship.Base.{
  ℕ, String, ◌+◌, ◌≡◌, refl, inl, inr, List, [], ◌∷◌, ◌++◌, length, arith, Option-cases,
}
use ghost_ship.Base.Int.{ℤ}
use ghost_ship.Base.Text.{trim_space}
use ghost_ship.Ssh.{Server}
use ghost_ship.Audit.Report.{SecurityAlert, AuditReport, not_installed}
use ghost_ship.Audit.Checks.{Check, system_checks, docker_checks, nomad_checks}
use ghost_ship.Audit.{
  alert_of, passed, fail_system, fail_docker, fail_nomad, new_report, audit_system_security,
  audit_docker_security, audit_nomad_security, gather,
}
use ghost_ship.Audit.Counts.{
  titled, titled-snoc, IsGraded, docker_absent, nomad_absent, check_loop_inv,
  system_checks-IsGraded, docker_checks-IsGraded, nomad_checks-IsGraded,
}

abbrev pub listed : AuditReport → ℕ
listed r = length r.system_checks + length r.docker_checks + length r.nomad_checks

-- Every alert is counted, but for those that say that a component is not there.
abbrev pub IsListed : AuditReport → Type 0
IsListed r = listed r ≡ r.critical_count + r.warning_count + docker_absent r + nomad_absent r

length-snoc :
    (alerts : List SecurityAlert) (a : SecurityAlert)
    → length (alerts ++ a ∷ []) ≡ length alerts + 1
length-snoc [] a = refl
length-snoc (b ∷ alerts) a = omega (arith, length-snoc alerts a)

fail_docker-IsListed :
    (c : Check) (r : AuditReport) → IsGraded c → IsListed r → IsListed (fail_docker c r)
fail_docker-IsListed c r g k =
    let a = alert_of "DOCKER" c.level c in
    ground (
      arith,
      k,
      g.no_docker,
      length-snoc r.docker_checks a,
      titled-snoc "Docker not installed" r.docker_checks a,
    )

fail_nomad-IsListed :
    (c : Check) (r : AuditReport) → IsGraded c → IsListed r → IsListed (fail_nomad c r)
fail_nomad-IsListed c r g k =
    let a = alert_of "NOMAD" c.level c in
    ground (
      arith,
      k,
      g.no_nomad,
      length-snoc r.nomad_checks a,
      titled-snoc "Nomad not installed" r.nomad_checks a,
    )

fail_system-IsListed :
    (c : Check) (r : AuditReport) → IsGraded c → IsListed r → IsListed (fail_system c r)
fail_system-IsListed c r g k =
    omega (arith, k, length-snoc r.system_checks (alert_of "SYSTEM" "WARNING" c))

passed-IsListed : (r : AuditReport) → IsListed r → IsListed (passed r)
passed-IsListed r k = k

module _ (server : Server) where
  system-IsListed :
      (r : AuditReport) (log : List String)
      → IsListed r
      → IsListed (audit_system_security server r log).0
  unfolding audit_system_security
  system-IsListed r log k =
      check_loop_inv server fail_system IsGraded IsListed passed-IsListed fail_system-IsListed
        system_checks r log system_checks-IsGraded k

  docker-IsListed :
      (r : AuditReport) (log : List String)
      → IsListed r
      → IsListed (audit_docker_security server r log).0
  unfolding audit_docker_security titled
  docker-IsListed r log k = elim (Option-cases (server log "which docker").err) [
    | inr (e, p) ↦
        rw (p, audit_docker_security)
          (let a = not_installed "DOCKER" "Docker" in
            omega (
              arith,
              k,
              length-snoc r.docker_checks a,
              titled-snoc "Docker not installed" r.docker_checks a,
            ))
    | inl p ↦
        rw (p, audit_docker_security)
          (check_loop_inv server fail_docker IsGraded IsListed passed-IsListed fail_docker-IsListed
            docker_checks r ("which docker" ∷ log) docker_checks-IsGraded k)
  ]

  nomad-IsListed :
      (r : AuditReport) (log : List String)
      → IsListed r
      → IsListed (audit_nomad_security server r log).0
  unfolding audit_nomad_security titled
  nomad-IsListed r log k = elim (Option-cases (server log "which nomad").err) [
    | inr (e, p) ↦
        rw (p, audit_nomad_security)
          (let a = not_installed "NOMAD" "Nomad" in
            omega (
              arith,
              k,
              length-snoc r.nomad_checks a,
              titled-snoc "Nomad not installed" r.nomad_checks a,
            ))
    | inl p ↦
        rw (p, audit_nomad_security)
          (check_loop_inv server fail_nomad IsGraded IsListed passed-IsListed fail_nomad-IsListed
            nomad_checks r ("which nomad" ∷ log) nomad_checks-IsGraded k)
  ]

  pub gather-IsListed : (now : ℤ) (log : List String) → IsListed (gather server now log).0
  unfolding gather titled
  gather-IsListed now log =
      let name : String = trim_space (server log "hostname").out in
      let r₀ : AuditReport = new_report name now in
      let (r₁, log₁) = audit_system_security server r₀ ("hostname" ∷ log) in
      let (r₂, log₂) = audit_docker_security server r₁ log₁ in
      nomad-IsListed r₂ log₂ (docker-IsListed r₁ log₁ (system-IsListed r₀ ("hostname" ∷ log) refl))
