-- ===== src/Nomad/Docker.antt =====
-- internal/nomad/docker.go: extraction. Decoding JSON is a parameter: of a line of `docker ps` into
-- a container, and of `docker inspect` into its list of maps.
pub mod Restore
pub mod Laws
pub mod Shown
use ghost_ship.Base.{
  String, ◌<>◌, Bool, not, true, false, ◌&&◌, Error, Result, ok, err, Option, none, some, List, [],
  ◌∷◌, ◌++◌, ◌==◌, if◌then◌else◌,
}
use ghost_ship.Base.Text.{trim_space, split, newline, nonempty, trim_prefix}
use ghost_ship.Base.Dict.{Dict, insert}
use ghost_ship.Ssh.{Reply, Server, Ssh, pure, run, ◌>>=◌}
use ghost_ship.Nomad.Json.{
  Json, Fields, end, get, as_string, as_object, as_array, texts_of, text_fields, field_names,
  or_default,
}

pub record ContainerConfig : Type 0 where
  pub id : String
  pub name : String
  pub image : String
  pub status : String
  pub ports : List String
  pub env : List String
  pub volumes : List String
  pub labels : Dict String
  pub networks : Fields

pub record DockerState : Type 0 where
  pub containers : List ContainerConfig
  pub images : List String
  pub networks : Fields
  pub volumes : List String
  pub volume_data : Dict String
  pub compose_yaml : String

abbrev pub object_at : String → Option Fields → Option Fields
object_at key none = none
object_at key (some fs) = as_object (get key fs)

abbrev pub string_at : String → Option Fields → String
string_at key none = ""
string_at key (some fs) = or_default "" (as_string (get key fs))

abbrev pub texts_at : String → Option Fields → List String
texts_at key none = []
texts_at key (some fs) = elim (as_array (get key fs)) [ none ↦ [] | some xs ↦ texts_of xs ]

abbrev pub labels_of : Option Fields → Dict String
labels_of none = []
labels_of (some fs) = text_fields fs

abbrev pub names_of : Option Fields → List String
names_of none = []
names_of (some fs) = field_names fs

-- The configuration that `docker inspect` shows.
unfoldable pub config_of : String → Fields → ContainerConfig
config_of id fields = record {
  id = id;
  name = trim_prefix (string_at "Name" (some fields)) "/";
  image = string_at "Image" (some fields);
  status = string_at "Status" (object_at "State" (some fields));
  ports = names_of (object_at "PortBindings" (object_at "HostConfig" (some fields)));
  env = texts_at "Env" (object_at "Config" (some fields));
  volumes = texts_at "Binds" (object_at "HostConfig" (some fields));
  labels = labels_of (object_at "Labels" (object_at "Config" (some fields)));
  networks = or_default end (object_at "Networks" (object_at "NetworkSettings" (some fields)));
}

abbrev pub first_config : String → Result (List Fields) → Result ContainerConfig
first_config id (err e) = err e
first_config id (ok []) = err "no inspect data"
first_config id (ok (fields ∷ _)) = ok (config_of id fields)

-- The full configuration where it can be had, and that of the listing where not.
abbrev pub full_or : ContainerConfig → Result ContainerConfig → ContainerConfig
full_or c (ok full) = full
full_or c (err e) = c

abbrev pub or_nothing {ℓ} : {A : Type ℓ} → A → Result A → A
or_nothing d (ok a) = a
or_nothing d (err e) = d

-- The lines of an output, without those that a test refuses.
unfoldable pub kept_lines : (String → Bool) → List String → List String
kept_lines keep [] = []
kept_lines keep (line ∷ lines) =
    let rest = kept_lines keep lines in if keep line then line ∷ rest else rest

abbrev pub lines_of : String → List String
lines_of out = split newline (trim_space out)

abbrev pub is_image : String → Bool
is_image line = not (trim_space line == "") && not (line == "<none>:<none>")

abbrev pub is_volume : String → Bool
is_volume line = not (trim_space line == "")

abbrev pub tar_command : String → String
tar_command volume = "tar czf - -C /var/lib/docker/volumes/" <> volume <> " . 2>/dev/null"

abbrev pub volume_command : String
volume_command = "docker volume ls --format '{{.Name}}'"

abbrev pub compose_paths : List String
compose_paths =
    "/opt/3x-ui/docker-compose.yaml" ∷ "/opt/3x-ui/docker-compose.yml" ∷ "/opt/docker-compose.yaml"
    ∷ "/root/docker-compose.yaml" ∷ []

module _ (server : Server) where
  -- A command whose output is read line by line.
  abbrev pub list_lines : String → String → (String → Bool) → Ssh (Result (List String))
  list_lines what cmd keep = do
    r ← run server cmd
    elim r.err [
      | some e ↦ pure (err (what <> e))
      | none ↦ pure (ok (kept_lines keep (lines_of r.out)))
    ]

  unfoldable pub extract_images : Ssh (Result (List String))
  extract_images =
      list_lines "docker images failed: " "docker images --format '{{.Repository}}:{{.Tag}}'"
        is_image

  unfoldable pub extract_volumes : Ssh (Result (List String))
  extract_volumes = list_lines "docker volume ls failed: " volume_command is_volume

  -- The archive of each volume that can be read.
  unfoldable pub volume_loop : List String → Dict String → Ssh (Dict String)
  volume_loop [] archives log = (archives, log)
  volume_loop (line ∷ lines) archives log =
      let volume = trim_space line in
      let skipped = volume_loop lines archives log in
      let r = server log (tar_command volume) in
      let lost = volume_loop lines archives (tar_command volume ∷ log) in
      let saved = volume_loop lines (insert volume r.out archives) (tar_command volume ∷ log) in
      if volume == "" then skipped else elim r.err [ some _ ↦ lost | none ↦ saved ]

  unfoldable pub extract_volume_data : Ssh (Result (Dict String))
  unfolding volume_loop
  extract_volume_data = do
    r ← run server volume_command
    elim r.err [
      | some e ↦ pure (err ("docker volume ls failed: " <> e))
      | none ↦ do archives ← volume_loop (lines_of r.out) []; pure (ok archives)
    ]

  -- The first of the paths that has some text.
  unfoldable pub compose_loop : List String → Ssh (Result String)
  compose_loop [] log = (err "docker-compose.yaml not found", log)
  compose_loop (path ∷ paths) log =
      let cmd = "cat " <> path <> " 2>/dev/null" in
      let r = server log cmd in
      let rest = compose_loop paths (cmd ∷ log) in
      elim r.err [ some _ ↦ rest | none ↦ if nonempty r.out then (ok r.out, cmd ∷ log) else rest ]

  unfoldable pub extract_docker_compose : Ssh (Result String)
  unfolding compose_loop
  extract_docker_compose = compose_loop compose_paths

module _ (server : Server) (decode_container : String → Result ContainerConfig)
    (decode_inspect : String → Result (List Fields)) where
  unfoldable pub extract_full_container_config : String → Ssh (Result ContainerConfig)
  extract_full_container_config id = do
    r ← run server ("docker inspect " <> id)
    elim r.err [ some e ↦ pure (err e) | none ↦ pure (first_config id (decode_inspect r.out)) ]

  unfoldable pub container_loop : List String → List ContainerConfig → Ssh (List ContainerConfig)
  container_loop [] containers log = (containers, log)
  container_loop (line ∷ lines) containers log =
      let skipped = container_loop lines containers log in
      let listed = λ (c : ContainerConfig).
        let (full, log') = extract_full_container_config c.id log in
        container_loop lines (containers ++ full_or c full ∷ []) log' in
      if line == ""
      then skipped
      else elim (decode_container line) [ err _ ↦ skipped | ok c ↦ listed c ]

  unfoldable pub extract_containers : Ssh (Result (List ContainerConfig))
  unfolding container_loop
  extract_containers = do
    r ← run server "docker ps -a --format '{{json .}}'"
    elim r.err [
      | some e ↦ pure (err ("docker ps failed: " <> e))
      | none ↦ do containers ← container_loop (lines_of r.out) []; pure (ok containers)
    ]

  -- A part that fails is logged, and left as in a new state.
  unfoldable pub extract_docker_state : Ssh DockerState
  extract_docker_state = do
    containers ← extract_containers
    images ← extract_images server
    volumes ← extract_volumes server
    archives ← extract_volume_data server
    compose ← extract_docker_compose server
    pure (record {
      containers = or_nothing [] containers;
      images = or_nothing [] images;
      networks = end;
      volumes = or_nothing [] volumes;
      volume_data = or_nothing [] archives;
      compose_yaml = or_nothing "" compose;
    })
