-- ===== src/Config.antt =====
-- internal/config: the node manifest and its loading. The file system and the YAML parser are
-- parameters.
pub mod Completed
pub mod Laws
use ghost_ship.Base.{
  ℕ, String, ◌<>◌, Bool, true, Option, none, some, List, map, not, ◌&&◌, ◌==◌, Error, Result, ok,
  err, if◌then◌else◌,
}
use ghost_ship.Base.Text.{quote}
use ghost_ship.Base.Int.{ℤ, pos, eqb_ℤ}
use ghost_ship.Base.Dict.{Dict}

abbrev pub role_relay : String
role_relay = "relay"

abbrev pub role_exit : String
role_exit = "exit"

pub record NodeConfig : Type 0 where
  pub role : String
  pub location : String
  pub hostname : String
  pub ip : String
  pub username : String

pub record FirewallConfig : Type 0 where
  pub allow_ports : List ℤ
  pub allow_ssh : Bool
  pub backend : String

pub record PortMapping : Type 0 where
  pub host : ℤ
  pub container : ℤ
  pub protocol : String

pub record ServiceSpec : Type 0 where
  pub name : String
  pub image : String
  pub volumes : List String
  pub env : Dict String
  pub ports : List PortMapping
  pub count : ℤ
  pub memory_mb : ℤ

pub record NomadConfig : Type 0 where
  pub data_dir : String
  pub bind_addr : String
  pub log_level : String
  pub server_mode : Bool

pub record MonitorConfig : Type 0 where
  pub telegram_token : String
  pub telegram_chat_id : String
  pub enabled : Bool

pub record NodeManifest : Type 0 where
  pub node : NodeConfig
  pub firewall : FirewallConfig
  pub services : List ServiceSpec
  pub nomad : NomadConfig
  pub monitor : MonitorConfig

-- A text that was left out takes its default, and so does a number.
abbrev pub default_to : String → String → String
default_to d s = if s == "" then d else s

abbrev pub default_int : ℤ → ℤ → ℤ
default_int d n = if eqb_ℤ n (pos 0) then d else n

abbrev pub service_defaults : ServiceSpec → ServiceSpec
service_defaults s = record s {
  count = default_int (pos 1) s.count;
  memory_mb = default_int (pos 128) s.memory_mb;
}

unfoldable pub apply_defaults : NodeManifest → NodeManifest
apply_defaults m = record m {
  firewall = record m.firewall { allow_ssh = true; backend = default_to "ufw" m.firewall.backend };
  services = map service_defaults m.services;
  nomad = record m.nomad {
    data_dir = default_to "/opt/nomad/data" m.nomad.data_dir;
    bind_addr = default_to "0.0.0.0" m.nomad.bind_addr;
    log_level = default_to "INFO" m.nomad.log_level;
  };
}

unfoldable pub validate : NodeManifest → Error
validate m =
    if m.node.role == ""
    then some "node.role is required (relay|exit)"
    else if not (m.node.role == role_relay) && not (m.node.role == role_exit)
    then some ("node.role must be 'relay' or 'exit', got " <> quote m.node.role)
    else if m.node.hostname == ""
    then some "node.hostname is required"
    else none

module _ (read_file : String → Result String) (unmarshal : String → Result NodeManifest) where
  validated : NodeManifest → Result NodeManifest
  validated m = elim (validate m) [ none ↦ ok m | some e ↦ err ("config: " <> e) ]

  parsed : String → Result NodeManifest
  unfolding validated
  parsed text = elim (unmarshal text) [
    | err e ↦ err ("config: parse yaml: " <> e)
    | ok m ↦ validated (apply_defaults m)
  ]

  unfoldable pub load : String → Result NodeManifest
  unfolding parsed
  load path = elim (read_file path) [
    | err e ↦ err ("config: read " <> quote path <> ": " <> e)
    | ok text ↦ parsed text
  ]
