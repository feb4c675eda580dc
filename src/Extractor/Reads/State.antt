-- ===== src/Extractor/Reads/State.antt =====
-- The extraction of a whole state reads.
use ghost_ship.Base.Order.{shuffled, All-shuffled}
use ghost_ship.Base.{ℕ, String, ◌≡◌, refl, true, Result, List, [], some}
use ghost_ship.Base.Dict.{Dict}
use ghost_ship.Base.FilePath.{base}
use ghost_ship.Config.{NodeManifest}
use ghost_ship.Ssh.{Server}
use ghost_ship.Nomad.Json.{Fields}
use ghost_ship.Nomad.Docker.{ContainerConfig, extract_docker_state}
use ghost_ship.Extractor.State.{
  Runtime, info_commands, config_commands, key_commands, database_paths, unless_missing,
  extract_system_info, extract_certs_and_xray, extract_databases, extract_configs, extract_ssh_keys,
  extract_system_state,
}
use ghost_ship.Extractor.Certs.{extract_certificates}
use ghost_ship.Extractor.Reads.{is_read, starts_with_one, all_read, collect_reads}
use ghost_ship.Extractor.Reads.Files.{
  extract_certificates_reads, extract_xray_config_reads, database_loop_reads,
}
use ghost_ship.Extractor.Reads.Docker.{extract_docker_state_reads}
use ghost_ship.Extractor.Reads.Jobs.{extract_nomad_state_reads}

module _ (server : Server) where
  info_reads :
      (log : List String) → all_read log ≡ true → all_read (extract_system_info server log).1 ≡ true
  unfolding extract_system_info is_read starts_with_one
  info_reads log h =
      collect_reads server (λ out. some out) info_commands [] log (refl, (refl, (refl, (refl, tt))))
        h

  configs_reads :
      (picks : List ℕ) (found : Dict String) (log : List String)
      → all_read log ≡ true
      → all_read (extract_configs server picks found log).1 ≡ true
  unfolding extract_configs is_read starts_with_one
  configs_reads picks found log h =
      collect_reads server unless_missing (shuffled picks config_commands) found log
        (All-shuffled (λ (_, cmd). is_read cmd ≡ true) picks config_commands
          (refl, (refl, (refl, (refl, tt)))))
        h

  keys_reads :
      (log : List String) → all_read log ≡ true → all_read (extract_ssh_keys server log).1 ≡ true
  unfolding extract_ssh_keys is_read starts_with_one
  keys_reads log h = collect_reads server unless_missing key_commands [] log (refl, (refl, tt)) h

  databases_reads :
      (log : List String) → all_read log ≡ true → all_read (extract_databases server log).1 ≡ true
  unfolding extract_databases
  databases_reads log h = database_loop_reads server base database_paths [] log h

module _ (server : Server) (runtime : Runtime) (decode_container : String → Result ContainerConfig)
    (decode_objects : String → Result (List Fields)) (decode_object : String → Result Fields) where
  -- Whatever the server answers, an extraction sends nothing but commands of a fixed table and
  -- commands that start in one of the ways that show something.
  pub extract_system_state_reads :
      (cfg : NodeManifest) (log : List String)
      → all_read log ≡ true
      → all_read
          (extract_system_state server runtime decode_container decode_objects decode_object cfg
            log).1
        ≡ true
  unfolding extract_system_state
  extract_system_state_reads cfg log h =
      let log₁ : List String = (extract_system_info server log).1 in
      let log₂ : List String = (extract_certificates server log₁).1 in
      let log₃ : List String = (extract_certs_and_xray server log₁).1 in
      let (_, log₄) = extract_databases server log₃ in
      let found : Dict String = (extract_certs_and_xray server log₁).0.1 in
      let log₅ : List String = (extract_configs server runtime.picks found log₄).1 in
      let log₆ : List String = (extract_ssh_keys server log₅).1 in
      let log₇ : List String =
        (extract_docker_state server decode_container decode_objects log₆).1 in
      let h₁ = info_reads server log h in
      let h₃ = extract_xray_config_reads server log₂ (extract_certificates_reads server log₁ h₁) in
      let h₅ = configs_reads server runtime.picks found log₄ (databases_reads server log₃ h₃) in
      let h₇ =
        extract_docker_state_reads server decode_container decode_objects log₆
          (keys_reads server log₅ h₅) in
      extract_nomad_state_reads server decode_objects decode_object log₇ h₇
