-- ===== src/Provisioner/Hardening.antt =====
-- internal/provisioner/hardening.go: the firewall.
pub mod Laws
use ghost_ship.Base.{◌<>◌, Error, none, some, List, [], ◌∷◌, ◌==◌, if◌then◌else◌}
use ghost_ship.Base.Int.{ℤ}
use ghost_ship.Base.Decimal.{format_int}
use ghost_ship.Config.{FirewallConfig}
use ghost_ship.Ssh.{Server, Ssh, pure, try, ◌&>◌}

module _ (server : Server) where
  unfoldable pub allow_ports : List ℤ → Ssh Error
  allow_ports [] = pure none
  allow_ports (port ∷ ports) =
      let rest = allow_ports ports in
      try server ("failed to allow port " <> format_int port <> ": ")
        ("sudo ufw allow " <> format_int port)
      &> rest

  unfoldable pub apply_hardening : FirewallConfig → Ssh Error
  unfolding allow_ports
  apply_hardening fw =
      if fw.backend == "ufw"
      then (if fw.allow_ssh
          then try server "failed to allow ssh: " "sudo ufw allow ssh"
          else pure none)
        &> allow_ports fw.allow_ports
        &> try server "failed to enable ufw: " "sudo ufw --force enable"
      else pure (some ("unsupported firewall backend: " <> fw.backend))
