-- ===== src/Extractor/Reads/Docker.antt =====
-- The extraction of Docker's state reads.
use ghost_ship.Base.{
  String, ◌<>◌, ◌≡◌, refl, inl, inr, true, Bool, Result, List, [], ◌∷◌, ◌++◌, arith, ◌==◌,
  Bool-cases, Option-cases, Result-cases,
}
use ghost_ship.Base.Text.{trim_space}
use ghost_ship.Base.Dict.{Dict, insert}
use ghost_ship.Ssh.{Server}
use ghost_ship.Nomad.Json.{Fields}
use ghost_ship.Nomad.Docker.{
  ContainerConfig, full_or, lines_of, tar_command, volume_command, compose_paths, is_image,
  is_volume, list_lines, extract_images, extract_volumes, volume_loop, extract_volume_data,
  compose_loop, extract_docker_compose, extract_full_container_config, container_loop,
  extract_containers, extract_docker_state,
}
use ghost_ship.Extractor.Reads.{is_read, starts_with_one, all_read, read_more, start_reads}

module _ (server : Server) where
  lines_reads :
      (what cmd : String) (keep : String → Bool) (log : List String)
      → is_read cmd ≡ true
      → all_read log ≡ true
      → all_read (list_lines server what cmd keep log).1 ≡ true
  lines_reads what cmd keep log r h = elim (Option-cases (server log cmd).err) [
    | inr (e, p) ↦ ground (arith, p, read_more cmd log r h)
    | inl p ↦ ground (arith, p, read_more cmd log r h)
  ]

  volume_reads :
      (lines : List String) (archives : Dict String) (log : List String)
      → all_read log ≡ true
      → all_read (volume_loop server lines archives log).1 ≡ true
  unfolding volume_loop
  volume_reads [] archives log h = h
  volume_reads (line ∷ lines) archives log h =
      let volume = trim_space line in
      let cmd = tar_command volume in
      let r = server log cmd in
      let h' =
        read_more cmd log
          (start_reads "tar czf - -C /var/lib/docker/volumes/" (volume <> " . 2>/dev/null") refl)
          h in
      let rest = λ (d : Dict String). volume_reads lines d (cmd ∷ log) h' in
      elim (Bool-cases (volume == "")) [
        | inl p ↦ ground (arith, p, volume_reads lines archives log h)
        | inr p ↦ elim (Option-cases r.err) [
          | inl q ↦ ground (arith, p, q, rest (insert volume r.out archives))
          | inr (e, q) ↦ ground (arith, p, q, rest archives)
        ]
      ]

  volume_data_reads :
      (log : List String) → all_read log ≡ true → all_read (extract_volume_data server log).1 ≡ true
  unfolding extract_volume_data is_read starts_with_one
  volume_data_reads log h =
      let h' = read_more volume_command log refl h in
      elim (Option-cases (server log volume_command).err) [
        | inr (e, p) ↦ ground (arith, p, h')
        | inl p ↦ ground (
          arith,
          p,
          volume_reads (lines_of (server log volume_command).out) [] (volume_command ∷ log) h',
        )
      ]

  compose_reads :
      (paths : List String) (log : List String)
      → all_read log ≡ true
      → all_read (compose_loop server paths log).1 ≡ true
  unfolding compose_loop
  compose_reads [] log h = h
  compose_reads (path ∷ paths) log h =
      let cmd = "cat " <> path <> " 2>/dev/null" in
      let h' = read_more cmd log (start_reads "cat " (path <> " 2>/dev/null") refl) h in
      let rest = compose_reads paths (cmd ∷ log) h' in
      elim (Option-cases (server log cmd).err) [
        | inr (e, p) ↦ ground (arith, p, rest)
        | inl p ↦ ground (arith, p, h', rest)
      ]

module _ (server : Server) (decode_container : String → Result ContainerConfig)
    (decode_inspect : String → Result (List Fields)) where
  full_reads :
      (id : String) (log : List String)
      → all_read log ≡ true
      → all_read (extract_full_container_config server decode_container decode_inspect id log).1
        ≡ true
  unfolding extract_full_container_config
  full_reads id log h =
      let cmd = "docker inspect " <> id in
      let h' = read_more cmd log (start_reads "docker inspect " id refl) h in
      elim (Option-cases (server log cmd).err) [
        | inr (e, p) ↦ ground (arith, p, h')
        | inl p ↦ ground (arith, p, h')
      ]

  container_reads :
      (lines : List String) (containers : List ContainerConfig) (log : List String)
      → all_read log ≡ true
      → all_read (container_loop server decode_container decode_inspect lines containers log).1
        ≡ true
  unfolding container_loop
  container_reads [] containers log h = h
  container_reads (line ∷ lines) containers log h =
      let skipped = container_reads lines containers log h in
      elim (Bool-cases (line == "")) [
        | inl p ↦ ground (arith, p, skipped)
        | inr p ↦ elim (Result-cases (decode_container line)) [
          | inr (e, q) ↦ ground (arith, p, q, skipped)
          | inl (c, q) ↦
              let full =
                extract_full_container_config server decode_container decode_inspect c.id log in
              ground (
                arith,
                p,
                q,
                container_reads lines (containers ++ full_or c full.0 ∷ []) full.1
                    (full_reads c.id log h),
              )
        ]
      ]

  abbrev list_containers : String
  list_containers = "docker ps -a --format '{{json .}}'"

  containers_reads :
      (log : List String)
      → all_read log ≡ true
      → all_read (extract_containers server decode_container decode_inspect log).1 ≡ true
  unfolding extract_containers is_read starts_with_one
  containers_reads log h =
      let h' = read_more list_containers log refl h in
      elim (Option-cases (server log list_containers).err) [
        | inr (e, p) ↦ ground (arith, p, h')
        | inl p ↦ ground (
          arith,
          p,
          container_reads (lines_of (server log list_containers).out) [] (list_containers ∷ log) h',
        )
      ]

  pub extract_docker_state_reads :
      (log : List String)
      → all_read log ≡ true
      → all_read (extract_docker_state server decode_container decode_inspect log).1 ≡ true
  unfolding extract_docker_state extract_images extract_volumes extract_docker_compose is_read
      starts_with_one
  extract_docker_state_reads log h =
      let log₁ : List String = (extract_containers server decode_container decode_inspect log).1 in
      let log₂ : List String = (extract_images server log₁).1 in
      let log₃ : List String = (extract_volumes server log₂).1 in
      let log₄ : List String = (extract_volume_data server log₃).1 in
      let h₁ = containers_reads log h in
      let h₂ =
        lines_reads server "docker images failed: "
          "docker images --format '{{.Repository}}:{{.Tag}}'" is_image log₁ refl h₁ in
      let h₃ =
        lines_reads server "docker volume ls failed: " volume_command is_volume log₂ refl h₂ in
      compose_reads server compose_paths log₄ (volume_data_reads server log₃ h₃)
