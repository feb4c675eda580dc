-- ===== src/Cli/Plain.antt =====
-- cmd/gs/main.go: `extract` in a build without the tag cgo_streamer.
use ghost_ship.Base.{String, ◌≡◌, Result, ok, some, List, [], arith}
use ghost_ship.Config.{NodeManifest, load}
use ghost_ship.Ssh.{Server}
use ghost_ship.Nomad.Json.{Fields}
use ghost_ship.Nomad.Docker.{ContainerConfig}
use ghost_ship.Extractor.State.{Runtime, extract_system_state}
use ghost_ship.Extractor.Stream.Stub.{empty_stream, pack_system_state}
use ghost_ship.Cli.Single.{cmd_extract, pack_state}
use ghost_ship.Cli.Laws.{validate_state-load}

module _ (connect : List String → String → Result Server) (read_file : String → Result String)
    (unmarshal : String → Result NodeManifest) (runtime : Runtime)
    (decode_container : String → Result ContainerConfig)
    (decode_objects : String → Result (List Fields)) (decode_object : String → Result Fields) where
  -- In a build without the tag, an extraction whose manifest loads and whose node is reached exits
  -- with status 0 whatever the node answers; it has sent the commands of the extraction, and the
  -- stream that it reports is the same for every state, without a content.
  pub cmd_extract-empty_stream :
      (path : String) (cfg : NodeManifest) (s : Server)
      → load read_file unmarshal path ≡ ok cfg
      → connect [] cfg.node.ip ≡ ok s
      → cmd_extract connect
          (load read_file unmarshal)
          runtime
          decode_container
          decode_objects
          decode_object
          pack_system_state
          path
        ≡ record {
          exit_code = 0;
          made = some empty_stream;
          log =
              (extract_system_state s runtime decode_container decode_objects decode_object cfg
                []).1;
        }
  unfolding cmd_extract pack_state pack_system_state
  cmd_extract-empty_stream path cfg s loaded reached =
      let valid =
        validate_state-load connect (load read_file unmarshal) runtime decode_container
          decode_objects decode_object (λ s. s) (λ s. s) read_file unmarshal path cfg s loaded in
      ground (arith, loaded, reached, valid)
