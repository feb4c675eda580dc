-- ===== src/Extractor/State/Missing.antt =====
-- What is kept of a configuration or a key that is missing.
use ghost_ship.Base.{String, ◌≡◌, refl, Result, Option, none, some, List, ap, ◌∙◌}
use ghost_ship.Base.Order.{shuffled, lookup-shuffled, NodupKeys-shuffled}
use ghost_ship.Base.Dict.{Dict, lookup, NodupKeys}
use ghost_ship.Config.{NodeManifest}
use ghost_ship.Ssh.{Server, Reply}
use ghost_ship.Nomad.Json.{Fields}
use ghost_ship.Nomad.Docker.{ContainerConfig}
use ghost_ship.Extractor.Read.{collect, collected, lookup-collect}
use ghost_ship.Extractor.State.{
  Runtime, config_commands, key_commands, unless_missing, extract_configs, extract_ssh_keys,
  extract_system_state,
}

-- What `echo '[NOT_FOUND]'` prints.
abbrev pub not_found : Reply
not_found = record { out = "[NOT_FOUND]\n"; err = none }

module _ (answers : String → Reply) where
  fixed : Server
  fixed log cmd = answers cmd

  collect-not_found :
      (items : List (String × String)) (name cmd : String) (found : Dict String) (log : List String)
      → NodupKeys items
      → lookup name items ≡ some cmd
      → answers cmd ≡ not_found
      → lookup name (collect (λ _ c. answers c) unless_missing items found log).0
        ≡ some "[NOT_FOUND]\n"
  collect-not_found items name cmd found log distinct row missing =
      lookup-collect answers unless_missing name items found log distinct
      ∙ ap (λ (o : Option String). collected answers unless_missing o (lookup name found)) row
      ∙ ap (λ (r : Reply). collected (λ c. r) unless_missing (some cmd) (lookup name found)) missing

  distinct : NodupKeys config_commands
  unfolding lookup
  distinct = (refl, (refl, (refl, (refl, tt))))

  module _ (runtime : Runtime) (decode_container : String → Result ContainerConfig)
      (decode_objects : String → Result (List Fields))
      (decode_object : String → Result Fields) where
    -- In whatever order a server with fixed replies is asked for the configurations: where the
    -- command for one of them and the one for a key print what echo prints when the file is missing,
    -- the extracted state has that text as the content of the configuration and of the key.
    pub extract_system_state-not_found :
        (cfg : NodeManifest) (log : List String) (name cmd key key_cmd : String)
        → lookup name config_commands ≡ some cmd
        → lookup key key_commands ≡ some key_cmd
        → answers cmd ≡ not_found
        → answers key_cmd ≡ not_found
        → let state =
            (extract_system_state
              (λ _ c. answers c)
              runtime
              decode_container
              decode_objects
              decode_object
              cfg
              log).0 in
          (lookup name state.configs ≡ some "[NOT_FOUND]\n")
          × (lookup key state.ssh_public_keys ≡ some "[NOT_FOUND]\n")
    unfolding extract_system_state extract_configs extract_ssh_keys lookup
    extract_system_state-not_found cfg log name cmd key key_cmd row key_row missing key_missing = (
      collect-not_found (shuffled runtime.picks config_commands) name cmd _ _
          (NodupKeys-shuffled runtime.picks config_commands distinct)
          (lookup-shuffled runtime.picks name config_commands distinct ∙ row) missing,
      collect-not_found key_commands key key_cmd _ _ (refl, (refl, tt)) key_row key_missing,
    )
