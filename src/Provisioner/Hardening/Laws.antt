-- ===== src/Provisioner/Hardening/Laws.antt =====
-- The firewall's commands, as one list that is attempted from the start.
use mathlib.Core.Path.{Σ_path}
use ghost_ship.Base.{
  String, ◌<>◌, ◌≡◌, refl, true, false, Bool, none, some, List, [], ◌∷◌, ◌++◌, map, arith, ◌==◌,
  eq_iff, if◌then◌else◌, Bool-cases, inl, inr, ◌⊎◌, Option-cases,
}
use ghost_ship.Base.Int.{ℤ}
use ghost_ship.Base.Decimal.{format_int}
use ghost_ship.Config.{FirewallConfig}
use ghost_ship.Ssh.{Server, pure, try, ◌&>◌}
use ghost_ship.Ssh.Steps.{Step, sent, attempt, attempt_ok, attempt-Stopped, Stopped}
use ghost_ship.Provisioner.Hardening.{allow_ports, apply_hardening}

abbrev pub enable_step : Step
enable_step = ("failed to enable ufw: ", "sudo ufw --force enable")

abbrev pub ssh_steps : Bool → List Step
ssh_steps allowed = if allowed then ("failed to allow ssh: ", "sudo ufw allow ssh") ∷ [] else []

abbrev pub port_step : ℤ → Step
port_step port =
    ("failed to allow port " <> format_int port <> ": ", "sudo ufw allow " <> format_int port)

-- SSH if it is allowed, the ports in their order, and only then the switch that closes the rest.
abbrev pub firewall_steps : FirewallConfig → List Step
firewall_steps fw = ssh_steps fw.allow_ssh ++ (map port_step fw.allow_ports ++ enable_step ∷ [])

module _ (server : Server) where
  ports-attempt :
      (ports : List ℤ) (log : List String)
      → (allow_ports server ports &> try server enable_step.0 enable_step.1) log
        ≡ attempt server (map port_step ports ++ enable_step ∷ []) log
  unfolding allow_ports attempt
  ports-attempt [] log = ground arith
  ports-attempt (port ∷ ports) log =
      ground (arith, ports-attempt ports (("sudo ufw allow " <> format_int port) ∷ log))

  start-attempt :
      (allowed : Bool) (ports : List ℤ) (log : List String)
      → ((if allowed then try server "failed to allow ssh: " "sudo ufw allow ssh" else pure none)
            &> allow_ports server ports
            &> try server enable_step.0 enable_step.1)
          log
        ≡ attempt server (ssh_steps allowed ++ (map port_step ports ++ enable_step ∷ [])) log
  unfolding attempt
  start-attempt true ports log = ground (arith, ports-attempt ports ("sudo ufw allow ssh" ∷ log))
  start-attempt false ports log = ports-attempt ports log

  -- With the backend `ufw` the hardening is the list of steps, stopped at the first that fails;
  -- with any other it is an error and sends nothing.
  pub apply_hardening-attempt :
      (fw : FirewallConfig) (log : List String)
      → apply_hardening server fw log ≡ (
          if fw.backend == "ufw"
          then attempt server (firewall_steps fw) log
          else (some ("unsupported firewall backend: " <> fw.backend), log))
  unfolding apply_hardening
  apply_hardening-attempt fw log = elim (Bool-cases (fw.backend == "ufw")) [
    | inl h ↦ rw (h, if◌then◌else◌) (start-attempt fw.allow_ssh fw.allow_ports log)
    | inr h ↦ rw h refl
  ]

  pub apply_hardening-sent :
      (fw : FirewallConfig) (log : List String)
      → fw.backend ≡ "ufw"
      → (apply_hardening server fw log).0 ≡ none
      → (apply_hardening server fw log).1 ≡ sent (firewall_steps fw) log
  apply_hardening-sent fw log h =
      rw (apply_hardening-attempt fw log, (eq_iff fw.backend "ufw").1 h)
        (attempt_ok server (firewall_steps fw) log)

  -- Hardening with `ufw` ends in one of two ways. It succeeds and has sent every step in order, the
  -- switch last; or it has stopped at a step before which all succeeded, with that step's message.
  pub apply_hardening_outcome :
      (fw : FirewallConfig) (log : List String)
      → fw.backend ≡ "ufw"
      → (apply_hardening server fw log ≡ (none, sent (firewall_steps fw) log))
        ⊎ ((x : String) × ((apply_hardening server fw log).0 ≡ some x)
            × Stopped server (firewall_steps fw) log x (apply_hardening server fw log).1)
  apply_hardening_outcome fw log h =
      rw (apply_hardening-attempt fw log, (eq_iff fw.backend "ufw").1 h)
        (elim (Option-cases (attempt server (firewall_steps fw) log).0) [
          | inl p ↦ inl (Σ_path p (attempt_ok server (firewall_steps fw) log p))
          | inr (x, p) ↦ inr (x, p, attempt-Stopped server (firewall_steps fw) log p)
        ])
