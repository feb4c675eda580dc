-- ===== src/Provisioner/Laws.antt =====
-- The order of the stages of a whole provisioning, also for a manifest that was loaded.
use ghost_ship.Base.{
  String, ◌≡◌, refl, true, Result, ok, none, some, List, [], ◌∷◌, map, arith, ◌==◌, eq_iff,
  Bool-cases, Option-cases, inl, inr, ◌⊎◌, ◌↔◌, ◌∙◌,
}
use ghost_ship.Config.{NodeManifest, load}
use ghost_ship.Config.Laws.{load-ok_iff}
use ghost_ship.Ssh.{Server}
use ghost_ship.Ssh.Steps.{sent, sent-append, Succeed, attempt-none_iff}
use ghost_ship.Provisioner.Hardening.{apply_hardening}
use ghost_ship.Provisioner.Hardening.Laws.{
  firewall_steps, port_step, enable_step, apply_hardening-attempt, apply_hardening-sent,
}
use ghost_ship.Provisioner.Services.{deploy_services}
use ghost_ship.Provisioner.{ensure_docker, run_full_provisioning}

-- The commands of the first two stages: Docker is installed only where it is not found.
abbrev pub base_commands : Server → List String → List String
base_commands server log =
    let asked = "which docker" ∷ "sudo apt-get update && sudo apt-get upgrade -y" ∷ log in
    elim (server ("sudo apt-get update && sudo apt-get upgrade -y" ∷ log) "which docker").err [
      | none ↦ asked
      | some _ ↦ "curl -fsSL https://get.docker.com | sh" ∷ asked
    ]

abbrev update : String
update = "sudo apt-get update && sudo apt-get upgrade -y"

-- What a provisioning is made of, each part behind the commands before it: the update succeeds, Docker
-- is found or installed, the backend is `ufw`, every step of the firewall and the deployment succeed.
pub record Provisioned (server : Server) (m : NodeManifest) (log : List String) : Type 0 where
  pub updated : (server log update).err ≡ none
  pub has_docker :
      ((server (update ∷ log) "which docker").err ≡ none)
      ⊎ ((server ("which docker" ∷ update ∷ log) "curl -fsSL https://get.docker.com | sh").err
          ≡ none)
  pub ufw : m.firewall.backend ≡ "ufw"
  pub secured : Succeed server (firewall_steps m.firewall) (base_commands server log)
  pub deployed :
      (deploy_services server m.services
        (sent (firewall_steps m.firewall) (base_commands server log))).0
      ≡ none

module _ (server : Server) where
  base_stages :
      (m : NodeManifest) (log : List String)
      → (run_full_provisioning server m log).0 ≡ none
      → ((server log update).err ≡ none)
        × (((server (update ∷ log) "which docker").err ≡ none)
            ⊎ ((server ("which docker" ∷ update ∷ log) "curl -fsSL https://get.docker.com | sh").err
                ≡ none))
  unfolding run_full_provisioning ensure_docker
  base_stages m log h = elim (Option-cases (server log update).err) [
    | inr (e, p) ↦ absurd (ground (arith, h, p))
    | inl p ↦ elim (Option-cases (server (update ∷ log) "which docker").err) [
      | inl q ↦ (p, inl q)
      | inr (e, q) ↦
          let curl =
            (server ("which docker" ∷ update ∷ log) "curl -fsSL https://get.docker.com | sh").err in
          elim (Option-cases curl) [
            | inl r ↦ (p, inr r)
            | inr (x, r) ↦ absurd (ground (arith, h, p, q, r))
          ]
    ]
  ]

  hardening_backend :
      (m : NodeManifest) (log : List String)
      → (apply_hardening server m.firewall log).0 ≡ none
      → m.firewall.backend ≡ "ufw"
  hardening_backend m log h = elim (Bool-cases (m.firewall.backend == "ufw")) [
    | inl p ↦ (eq_iff m.firewall.backend "ufw").0 p
    | inr p ↦ absurd (ground (arith, p, apply_hardening-attempt server m.firewall log))
  ]

  -- In a provisioning that succeeds the update has succeeded, the backend is `ufw`, the hardening behind the update and the
  -- set-up of Docker succeeds, and the deployment succeeds behind all the firewall's commands. Its
  -- commands are the last.
  pub run_full_provisioning_ok :
      (m : NodeManifest) (log : List String)
      → (run_full_provisioning server m log).0 ≡ none
      → let secured = sent (firewall_steps m.firewall) (base_commands server log) in
        ((server log update).err ≡ none)
        × (m.firewall.backend ≡ "ufw")
        × ((apply_hardening server m.firewall (base_commands server log)).0 ≡ none)
        × ((deploy_services server m.services secured).0 ≡ none)
        × ((run_full_provisioning server m log).1 ≡ (deploy_services server m.services secured).1)
  unfolding run_full_provisioning
  run_full_provisioning_ok m log h =
      let hardened : (apply_hardening server m.firewall (base_commands server log)).0 ≡ none =
        ground arith in
      let ufw = hardening_backend m (base_commands server log) hardened in
      let end = apply_hardening-sent server m.firewall (base_commands server log) ufw hardened in
      ((base_stages m log h).0, ufw, hardened, ground (arith, end), ground (arith, end))

  hardening_ok :
      (m : NodeManifest) (log : List String)
      → m.firewall.backend ≡ "ufw"
      → ((apply_hardening server m.firewall log).0 ≡ none)
        ↔ Succeed server (firewall_steps m.firewall) log
  hardening_ok m log h =
      rw (apply_hardening-attempt server m.firewall log, (eq_iff m.firewall.backend "ufw").1 h)
        (attempt-none_iff server (firewall_steps m.firewall) log)

  provisioning_parts :
      (m : NodeManifest) (log : List String)
      → (run_full_provisioning server m log).0 ≡ none
      → Provisioned server m log
  provisioning_parts m log h =
      let (updated, ufw, hardened, deployed, end) = run_full_provisioning_ok m log h in
      record {
        updated = updated;
        has_docker = (base_stages m log h).1;
        ufw = ufw;
        secured = (hardening_ok m (base_commands server log) ufw).0 hardened;
        deployed = deployed;
      }

  provisioning_of_parts :
      (m : NodeManifest) (log : List String)
      → Provisioned server m log
      → (run_full_provisioning server m log).0 ≡ none
  unfolding run_full_provisioning ensure_docker
  provisioning_of_parts m log k =
      let hardened = (hardening_ok m (base_commands server log) k.ufw).1 k.secured in
      let end = apply_hardening-sent server m.firewall (base_commands server log) k.ufw hardened in
      elim k.has_docker [
        | inl q ↦ ground (arith, k.updated, q, hardened, end, k.deployed)
        | inr q ↦ elim (Option-cases (server (update ∷ log) "which docker").err) [
          | inl p ↦ ground (arith, k.updated, p, hardened, end, k.deployed)
          | inr (e, p) ↦ ground (arith, k.updated, p, q, hardened, end, k.deployed)
        ]
      ]

  -- A provisioning succeeds exactly if its parts do.
  pub run_full_provisioning-none_iff :
      (m : NodeManifest) (log : List String)
      → ((run_full_provisioning server m log).0 ≡ none) ↔ Provisioned server m log
  run_full_provisioning-none_iff m log = (provisioning_parts m log, provisioning_of_parts m log)

module _ (server : Server) (read_file : String → Result String)
    (unmarshal : String → Result NodeManifest) where
  -- Where a provisioning by a manifest that was loaded succeeds, behind the base commands SSH was
  -- allowed first, then the ports, and the firewall was switched on only after them.
  pub run_full_provisioning_loaded :
      (path : String) (m : NodeManifest) (log : List String)
      → load read_file unmarshal path ≡ ok m
      → (run_full_provisioning server m log).0 ≡ none
      → let opened =
          sent
            (map port_step m.firewall.allow_ports)
            ("sudo ufw allow ssh" ∷ base_commands server log) in
        (run_full_provisioning server m log).1
        ≡ (deploy_services server m.services ("sudo ufw --force enable" ∷ opened)).1
  run_full_provisioning_loaded path m log loaded h =
      let l = (load-ok_iff read_file unmarshal path m).0 loaded in
      let allowed : m.firewall.allow_ssh ≡ true = l.completed.allow_ssh in
      let r = (run_full_provisioning_ok server m log h).4 in
      r
      ∙ rw
          (
            allowed,
            sent-append (map port_step m.firewall.allow_ports) (enable_step ∷ [])
                ("sudo ufw allow ssh" ∷ base_commands server log),
          )
          refl
