-- ===== src/Cli/Dial.antt =====
-- cmd/gs/main.go: the clients of the commands, `NewSSHClient("root", ip, 22, os.Getenv("SSH_KEY"))`
-- of pkg/sshutil, in place of the parameter for connecting.
use ghost_ship.Base.{
  String, ◌≡◌, Result, ok, err, none, List, [], arith, inl, inr, Result-cases, sym,
}
use ghost_ship.Base.Int.{pos}
use ghost_ship.Config.{NodeManifest}
use ghost_ship.Ssh.{Server}
use ghost_ship.Ssh.Client.{
  Connection, ClientConfig, client_run, new_ssh_client, Connected, new_ssh_client-ok_iff,
}
use ghost_ship.Nomad.Json.{Fields}
use ghost_ship.Nomad.Docker.{ContainerConfig}
use ghost_ship.Provisioner.{run_full_provisioning}
use ghost_ship.Extractor.State.{Runtime, SystemState, extract_system_state, restore_system_state}
use ghost_ship.Cli.{Migration, MigrateOptions, no_options, parse_migrate, cmd_migrate}
use ghost_ship.Cli.Laws.{cmd_migrate-Migrated}

module _ {Signer : Type 0} (read_file : String → Result String) (parse_key : String → Result Signer)
    (dial : List String → String → ClientConfig Signer → Result Connection) (ssh_key : String) where
  -- What is dialled may have got commands before.
  unfoldable pub connect : List String → String → Result Server
  connect before ip =
      elim (new_ssh_client read_file parse_key (dial before) "root" ip (pos 22) ssh_key) [
        | ok c ↦ ok (client_run c)
        | err e ↦ err e
      ]

  abbrev pub Reached : List String → String → Connection → Type 0
  Reached before ip c = Connected read_file parse_key (dial before) "root" ip (pos 22) ssh_key c

  connect-Reached :
      (before : List String) (ip : String) {s : Server}
      → connect before ip ≡ ok s
      → (c : Connection) × Reached before ip c × (s ≡ client_run c)
  unfolding connect
  connect-Reached before ip h =
      elim (Result-cases
        (new_ssh_client read_file parse_key (dial before) "root" ip (pos 22) ssh_key)) [
          | inr (e, p) ↦ absurd (ground (arith, h, p))
          | inl (c, p) ↦ (
            c,
            (new_ssh_client-ok_iff read_file parse_key (dial before) "root" ip (pos 22) ssh_key c).0
                p,
            ground (arith, h, p),
          )
        ]

  module _ (load_config : String → Result NodeManifest) (runtime : Runtime)
      (decode_container : String → Result ContainerConfig)
      (decode_objects : String → Result (List Fields)) (decode_object : String → Result Fields)
      (sha256_hex base64 : String → String) where
    abbrev pub migration : List String → Migration
    migration =
        cmd_migrate connect load_config runtime decode_container decode_objects decode_object
          sha256_hex base64

    abbrev pub state_of : Connection → NodeManifest → SystemState × List String
    state_of c cfg =
        extract_system_state (client_run c) runtime decode_container decode_objects decode_object
          cfg []

    -- A migration over two connections, of the root user at port 22 of either address.
    pub record Dialled (o : MigrateOptions) (m : Migration) : Type 0 where
      pub cfg : NodeManifest
      pub from : Connection
      pub to : Connection
      pub loaded : load_config o.config_file ≡ ok cfg
      pub from_reached : Reached [] o.source_ip from
      pub to_reached : Reached (state_of from cfg).1 o.target_ip to
      pub provisioned : (run_full_provisioning (client_run to) cfg []).0 ≡ none
      pub source_end : m.on_source ≡ (state_of from cfg).1
      pub target_end :
          m.on_target
          ≡ (restore_system_state
              (client_run to)
              sha256_hex
              base64
              (state_of from cfg).0
              (run_full_provisioning (client_run to) cfg []).1).1

    -- A migration that exits with status 0 has read and parsed the key that SSH_KEY names and has
    -- dialled port 22 of both addresses as root with that key alone. Over the first connection it
    -- has sent the extraction, and over the second the provisioning, which succeeded, and then the
    -- restore of the state that was extracted.
    pub cmd_migrate-Dialled :
        (args : List String)
        → (migration args).exit_code ≡ 0
        → Dialled (parse_migrate args no_options) (migration args)
    cmd_migrate-Dialled args h =
        let m =
          cmd_migrate-Migrated connect load_config runtime decode_container decode_objects
            decode_object sha256_hex base64 args h in
        let (from, from_reached, p) =
          connect-Reached [] (parse_migrate args no_options).source_ip m.from_connected in
        let (to, to_reached, q) =
          connect-Reached _ (parse_migrate args no_options).target_ip m.to_connected in
        record {
          cfg = m.cfg;
          from = from;
          to = to;
          loaded = m.loaded;
          from_reached = from_reached;
          to_reached = rw (sym p) to_reached;
          provisioned = rw (sym q) m.provisioned;
          source_end = rw (sym p) m.source_end;
          target_end = rw (sym p, sym q) m.target_end;
        }
