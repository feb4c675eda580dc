-- ===== src/Cli/Land.antt =====
-- What a landing that succeeds has done.
use ghost_ship.Extractor.State.{Runtime}
use ghost_ship.Base.{
  ℕ, String, ◌≡◌, ◌↔◌, Result, ok, List, [], ◌∷◌, map, arith, inl, inr, ◌∙◌, Option-cases,
  Result-cases,
}
use ghost_ship.Config.{NodeManifest, load}
use ghost_ship.Ssh.{Server}
use ghost_ship.Ssh.Steps.{sent}
use ghost_ship.Nomad.Json.{Fields}
use ghost_ship.Nomad.Docker.{ContainerConfig}
use ghost_ship.Provisioner.{run_full_provisioning}
use ghost_ship.Provisioner.Hardening.Laws.{port_step}
use ghost_ship.Provisioner.Services.{deploy_services}
use ghost_ship.Provisioner.Laws.{
  base_commands, Provisioned, run_full_provisioning-none_iff, run_full_provisioning_loaded,
}
use ghost_ship.Cli.{cmd_land, land_config}

module _ (connect : List String → String → Result Server) (read_file : String → Result String)
    (unmarshal : String → Result NodeManifest) (runtime : Runtime)
    (decode_container : String → Result ContainerConfig)
    (decode_objects : String → Result (List Fields)) (decode_object : String → Result Fields)
    (sha256_hex base64 : String → String) where
  abbrev pub landing : String → List String → ℕ × List String
  landing =
      cmd_land connect (load read_file unmarshal) runtime decode_container decode_objects
        decode_object sha256_hex base64

  -- A landing by a manifest on a server: the commands of the firewall, and those behind it.
  pub record Landed (ip : String) (args log : List String) : Type 0 where
    pub cfg : NodeManifest
    pub server : Server
    pub loaded : load read_file unmarshal (land_config args) ≡ ok cfg
    pub connected : connect [] ip ≡ ok server
    pub provisioned : Provisioned server cfg []
    pub end :
        let opened =
          sent
            (map port_step cfg.firewall.allow_ports)
            ("sudo ufw allow ssh" ∷ base_commands server []) in
        log ≡ (deploy_services server cfg.services ("sudo ufw --force enable" ∷ opened)).1

  landed :
      (ip : String) (args : List String)
      → (landing ip args).0 ≡ 0
      → Landed ip args (landing ip args).1
  unfolding cmd_land
  landed ip args h = elim (Result-cases (load read_file unmarshal (land_config args))) [
    | inr (e, p) ↦ absurd (ground (arith, h, p))
    | inl (cfg, p) ↦ elim (Result-cases (connect [] ip)) [
      | inr (e, q) ↦ absurd (ground (arith, h, p, q))
      | inl (server, q) ↦ elim (Option-cases (run_full_provisioning server cfg []).0) [
        | inr (e, r) ↦ absurd (ground (arith, h, p, q, r))
        | inl r ↦
            let all : (landing ip args).1 ≡ (run_full_provisioning server cfg []).1 =
              ground (arith, p, q, r) in
            record {
              cfg = cfg;
              server = server;
              loaded = p;
              connected = q;
              provisioned = (run_full_provisioning-none_iff server cfg []).0 r;
              end =
                  all
                  ∙ run_full_provisioning_loaded server read_file unmarshal (land_config args) cfg
                      [] p r;
            }
      ]
    ]
  ]

  -- `land` exits with status 0 exactly if the manifest loads, the address is reached, the update
  -- succeeds, Docker is found or installed, the backend is `ufw`, every command of the firewall
  -- succeeds and the services are deployed without an error; and then all that it has sent is the
  -- update, what finds or installs Docker, the rule for SSH, then those for the ports, then the switch
  -- of the firewall, and the deployment.
  pub cmd_land-Landed_iff :
      (ip : String) (args : List String)
      → ((landing ip args).0 ≡ 0) ↔ Landed ip args (landing ip args).1
  unfolding cmd_land
  cmd_land-Landed_iff ip args = (
    landed ip args,
    λ k.
        let provisioned = (run_full_provisioning-none_iff k.server k.cfg []).1 k.provisioned in
        ground (arith, k.loaded, k.connected, provisioned),
  )
