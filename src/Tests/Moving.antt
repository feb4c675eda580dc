-- ===== src/Tests/Moving.antt =====
-- Moving Docker's containers, Nomad's jobs and certificates from one server to another.
use ghost_ship.Base.{
  String, ◌≡◌, ◌↔◌, Result, ok, err, none, List, [], ◌∷◌, ◌==◌, All, if◌then◌else◌,
}
use ghost_ship.Base.Int.{pos}
use ghost_ship.Ssh.{Reply}
use ghost_ship.Nomad.Json.{Fields, end, field, str}
use ghost_ship.Nomad.Docker.{ContainerConfig, DockerState}
use ghost_ship.Nomad.Docker.Restore.{restore_docker_state}
use ghost_ship.Nomad.Docker.Laws.{
  ArchiveSent, ComposeSent, ContainerSent, fixed, restore_docker_state_tries,
}
use ghost_ship.Nomad.Jobs.{NomadJob, NomadState, validate_nomad_install, extract_nomad_state}
use ghost_ship.Nomad.Jobs.Laws.{
  JobSent, IsShown, version_log, validate_nomad_install-none_iff, extract_nomad_state-IsShown,
}
use ghost_ship.Extractor.State.{SystemState, restore_system_state}
use ghost_ship.Extractor.State.Puts.{DatabaseAsked, CertificateAsked, ConfigAsked}
use ghost_ship.Extractor.State.Laws.{restore_system_state_tries}
use ghost_ship.Tests.Node.{says, fails_at}

-- A server on which every command prints the command.
abbrev echo : String → Reply
echo cmd = record { out = cmd; err = none }

abbrev web : ContainerConfig
web = record {
  id = "1";
  name = "web";
  image = "nginx";
  status = "running";
  ports = "80:80" ∷ [];
  env = [];
  volumes = [];
  labels = ("tier", "front") ∷ [];
  networks = end;
}

abbrev docker : DockerState
docker = record {
  containers = web ∷ [];
  images = [];
  networks = end;
  volumes = "db" ∷ [];
  volume_data = ("db", "archive") ∷ [];
  compose_yaml = "services:";
}

restore_docker_state_tries_example :
    let (e, log) = restore_docker_state (fails_at "docker ps" "") docker [] in
    (e ≡ none)
    × All (ArchiveSent log) docker.volume_data
    × ComposeSent log docker.compose_yaml
    × All (ContainerSent log) docker.containers
restore_docker_state_tries_example = restore_docker_state_tries (fails_at "docker ps" "") docker []

abbrev job : NomadJob
job = record {
  id = "cache";
  name = "cache";
  type = "service";
  datacenters = [];
  status = "running";
  task_groups = [];
  meta = [];
  raw_jobspec = "{}";
}

abbrev jobs : NomadState
jobs = record { jobs = job ∷ []; nodes = []; allocations = end }

validate_nomad_install-none_iff_example : ((validate_nomad_install (says "1.0") []).0 ≡ none) ↔ (
    ((says "1.0" [] "which nomad").err ≡ none)
    × ((says "1.0" ("which nomad" ∷ []) "nomad version").err ≡ none)
    × (¬ (
        ((says "1.0" (version_log (says "1.0") []) "docker --version").out ≡ "")
        × ((says "1.0" ("docker --version" ∷ version_log (says "1.0") []) "which containerd").out
            ≡ ""))))
validate_nomad_install-none_iff_example = validate_nomad_install-none_iff (says "1.0") []

-- A list of one job, and its details.
abbrev decode_jobs : String → Result (List Fields)
decode_jobs text = ok (field "ID" (str "cache") end ∷ [])

abbrev decode_job : String → Result Fields
decode_job text = ok (field "ID" (str "cache") end)

extract_nomad_state-IsShown_example :
    All
      (IsShown echo decode_jobs decode_job)
      (extract_nomad_state (fixed echo) decode_jobs decode_job []).0.jobs
extract_nomad_state-IsShown_example = extract_nomad_state-IsShown echo decode_jobs decode_job []

abbrev pub state : SystemState
state = record {
  hostname = "relay-ru-01";
  location = "ru";
  role = "relay";
  timestamp = pos 0;
  system_info = [];
  certificates = ("example.org/cert.pem", "pem") ∷ [];
  databases = ("x-ui.db", "SQLite") ∷ [];
  configs = ("xray.json", "{}") ∷ [];
  ssh_public_keys = [];
  docker = docker;
  nomad = jobs;
}

restore_system_state_tries_example :
    let (e, log) = restore_system_state (says "") (λ s. s) (λ s. s) state [] in
    (e ≡ none)
    × All (DatabaseAsked log) state.databases
    × All (CertificateAsked log) state.certificates
    × All (ConfigAsked log) state.configs
    × All (ContainerSent log) state.docker.containers
    × All (JobSent log) state.nomad.jobs
restore_system_state_tries_example = restore_system_state_tries (says "") (λ s. s) (λ s. s) state []

-- YAML that describes nothing beyond the state that is there.
abbrev pub unmarshal : String → SystemState → Result SystemState
unmarshal text s = if text == "{}" then ok s else err "bad yaml"
