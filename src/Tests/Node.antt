-- ===== src/Tests/Node.antt =====
-- The data that the tests share: the node of configs/example-node.yaml, and servers with fixed
-- answers.
use ghost_ship.Base.{String, false, none, some, [], ◌∷◌, if◌then◌else◌, ◌==◌, Result, ok, err}
use ghost_ship.Base.Int.{pos}
use ghost_ship.Config.{NodeManifest, ServiceSpec}
use ghost_ship.Ssh.{Server}
use ghost_ship.Extractor.State.{Runtime}

abbrev pub panel : ServiceSpec
panel = record {
  name = "3x-ui";
  image = "ghcr.io/mhsanaei/3x-ui:latest";
  volumes = "/opt/3x-ui/db:/etc/x-ui" ∷ [];
  env = ("TZ", "UTC") ∷ ("PUID", "1000") ∷ [];
  ports = [];
  count = pos 0;
  memory_mb = pos 0;
}

abbrev pub node : NodeManifest
node = record {
  node = record {
    role = "relay";
    location = "ru";
    hostname = "relay-ru-01";
    ip = "";
    username = "";
  };
  firewall = record {
    allow_ports = pos 22 ∷ pos 443 ∷ pos 8443 ∷ [];
    allow_ssh = false;
    backend = "";
  };
  services = panel ∷ [];
  nomad = record { data_dir = ""; bind_addr = ""; log_level = ""; server_mode = false };
  monitor = record { telegram_token = ""; telegram_chat_id = ""; enabled = false };
}

-- A range that takes the last two of the four configurations before the first two.
abbrev pub runtime : Runtime
runtime = record { now = pos 0; picks = 2 ∷ 2 ∷ [] }

abbrev pub config_path : String
config_path = "configs/example-node.yaml"

-- One file, and a parser that knows its text.
abbrev pub disk : String → Result String
disk path = if path == config_path then ok "node" else err "no such file"

abbrev pub parser : String → Result NodeManifest
parser text = if text == "node" then ok node else err "bad yaml"

-- A server on which every command succeeds and prints the same.
abbrev pub says : String → Server
says text log cmd = record { out = text; err = none }

-- A server on which one command fails.
abbrev pub fails_at : String → String → Server
fails_at bad text log cmd = record {
  out = text;
  err = if cmd == bad then some "exit status 1" else none;
}
