-- ===== src/Nomad/Docker/Restore.antt =====
-- internal/nomad/docker.go: restoring. What fails is logged and left behind; the functions return no
-- error. A map is a list of entries, in the order of the range.
use ghost_ship.Base.{String, ◌<>◌, Bool, Error, none, some, List, [], ◌∷◌, ◌==◌, if◌then◌else◌}
use ghost_ship.Base.Dict.{Dict}
use ghost_ship.Ssh.{Server, Ssh, pure, run, try, ◌>>=◌, ◌>>◌, ◌&>◌}
use ghost_ship.Nomad.Docker.{ContainerConfig, DockerState}

abbrev pub volume_path : String → String
volume_path volume = "/var/lib/docker/volumes/" <> volume <> "/_data"

abbrev pub volume_mkdir : String → String
volume_mkdir volume = "mkdir -p " <> volume_path volume

abbrev pub volume_write : String → String → String
volume_write volume content = "cat > /tmp/" <> volume <> ".tar.gz << 'EOF'\n" <> content <> "\nEOF"

abbrev pub volume_unpack : String → String
volume_unpack volume =
    "tar xzf /tmp/"
    <> volume
    <> ".tar.gz -C "
    <> volume_path volume
    <> " && rm /tmp/"
    <> volume
    <> ".tar.gz"

abbrev pub compose_write : String → String
compose_write yaml = "cat > /opt/3x-ui/docker-compose.yaml << 'EOF'\n" <> yaml <> "\nEOF"

-- One flag for each text, behind the text so far.
abbrev pub flags : (String → String) → List String → String → String
flags flag [] text = text
flags flag (x ∷ xs) text = flags flag xs (text <> flag x)

abbrev pub label_flags : Dict String → String → String
label_flags [] text = text
label_flags ((k, v) ∷ labels) text = label_flags labels (text <> " -l " <> k <> "=" <> v)

unfoldable pub container_command : ContainerConfig → String
container_command c =
    let start = "docker run -d --name " <> c.name <> " --restart unless-stopped" in
    let with_env = flags (λ e. " -e '" <> e <> "'") c.env start in
    let with_ports = flags (λ p. " -p " <> p) c.ports with_env in
    let with_volumes = flags (λ v. " -v " <> v) c.volumes with_ports in
    label_flags c.labels with_volumes <> " " <> c.image

module _ (server : Server) where
  -- One round of the loop over the archives.
  unfoldable pub restore_volume : String → String → Ssh Error
  restore_volume volume content = do
    _ ← run server (volume_mkdir volume)
    try server "failed to write volume data: " (volume_write volume content)
        &> try server "failed to extract volume data: " (volume_unpack volume)

  unfoldable pub restore_volume_data : Dict String → Ssh Error
  restore_volume_data [] log = (none, log)
  restore_volume_data ((volume, content) ∷ archives) log =
      let (_, log') = restore_volume volume content log in restore_volume_data archives log'

  unfoldable pub restore_compose_yaml : String → Ssh Error
  restore_compose_yaml yaml = do
    _ ← run server "mkdir -p /opt/3x-ui"
    try server "failed to write docker-compose.yaml: " (compose_write yaml)
        &> try server "docker compose up failed: " "cd /opt/3x-ui && docker compose up -d"

  unfoldable pub restore_container : ContainerConfig → Ssh Error
  restore_container c =
      if c.image == "" then pure (some ("container " <> c.name <> " has no image")) else do
        r ← run server (container_command c)
        elim r.err [
          | some e ↦ pure (some ("container start failed: " <> r.out <> " - " <> e))
          | none ↦ pure none
        ]

  unfoldable pub restore_containers : List ContainerConfig → Ssh Error
  restore_containers [] log = (none, log)
  restore_containers (c ∷ containers) log =
      let (_, log') = restore_container c log in restore_containers containers log'

  abbrev pub restore_compose : String → Ssh Error
  restore_compose yaml = if yaml == "" then pure none else restore_compose_yaml yaml

  unfoldable pub restore_docker_state : DockerState → Ssh Error
  unfolding restore_compose_yaml restore_volume_data restore_containers
  restore_docker_state state =
      restore_volume_data state.volume_data
      >> restore_compose state.compose_yaml
      >> restore_containers state.containers

  unfoldable pub validate_containerd_runtime : Ssh Bool
  validate_containerd_runtime = do
    r ← run server "which containerd"
    pure (elim r.err [ none ↦ Bool.true | some _ ↦ Bool.false ])

  unfoldable pub validate_docker_state : Ssh Error
  validate_docker_state =
      try server "docker not installed: " "docker --version"
      &> try server "docker daemon not responding: " "docker ps"
