-- ===== src/Audit/Fail2Ban.antt =====
-- The check for Fail2Ban looks for `active` in what `systemctl is-active` prints, and that word
-- stands in `inactive` and in `deactivating` too.
use text.Mathlib.TextLemmas.{append_assoc}
use ghost_ship.Base.{String, ◌<>◌, ◌≡◌, refl, ap, ◌∙◌, sym, true, List, ◌∷◌}
use ghost_ship.Base.Text.{has_infix}
use ghost_ship.Base.Text.Laws.{has_infix_iff}
use ghost_ship.Ssh.{Server}
use ghost_ship.Audit.Report.{AuditReport}
use ghost_ship.Audit.Checks.{Check, fail2ban_check}
use ghost_ship.Audit.{passed, fail_system, check_loop}

-- A text with `inactive` in it has `active` in it.
has_infix-inactive : (s : String) → has_infix s "inactive" ≡ true → has_infix s "active" ≡ true
has_infix-inactive s h =
    let (p, u, e) = (has_infix_iff s "inactive").0 h in
    (has_infix_iff s "active").1 (
      p <> "in",
      u,
      e
          ∙ ap (λ t. p <> t) (append_assoc "in" "active" u)
          ∙ sym (append_assoc p "in" ("active" <> u)),
    )

-- Where the service is reported as inactive the check passes: it is counted as passed, and there is
-- no alert.
pub check_loop-fail2ban_inactive :
    (server : Server) (cs : List Check) (r : AuditReport) (log : List String)
    → has_infix (server log fail2ban_check.cmd).out "inactive" ≡ true
    → check_loop server fail_system (fail2ban_check ∷ cs) r log
      ≡ check_loop server fail_system cs (passed r) (fail2ban_check.cmd ∷ log)
unfolding check_loop
check_loop-fail2ban_inactive server cs r log h =
    rw (has_infix-inactive (server log fail2ban_check.cmd).out h) refl
