-- ===== src/Provisioner.antt =====
-- internal/provisioner/provisioner.go: the whole sequence for a fresh server.
pub mod Hardening
pub mod Compose
pub mod Services
pub mod Laws
use ghost_ship.Base.{Error, none, some}
use ghost_ship.Config.{NodeManifest}
use ghost_ship.Ssh.{Server, Ssh, pure, run, try, wrap, ◌>>=◌, ◌&>◌}
use ghost_ship.Provisioner.Hardening.{apply_hardening}
use ghost_ship.Provisioner.Services.{deploy_services}

module _ (server : Server) where
  unfoldable pub ensure_docker : Ssh Error
  ensure_docker = do
    found ← run server "which docker"
    elim found.err [
      | none ↦ pure none
      | some _ ↦ try server "docker installation failed: " "curl -fsSL https://get.docker.com | sh"
    ]

  unfoldable pub run_full_provisioning : NodeManifest → Ssh Error
  unfolding ensure_docker
  run_full_provisioning m =
      try server "system update failed: " "sudo apt-get update && sudo apt-get upgrade -y"
      &> ensure_docker
      &> wrap "hardening stage failed: " (apply_hardening server m.firewall)
      &> wrap "service deployment failed: " (deploy_services server m.services)
