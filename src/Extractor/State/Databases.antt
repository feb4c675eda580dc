-- ===== src/Extractor/State/Databases.antt =====
-- The database of one server on another: extracted from the one and restored on the other.
use ghost_ship.Base.{String, ◌≡◌, refl, ap, ◌∙◌, Result, none, some, List, [], ◌∷◌, ◌++◌, All}
use ghost_ship.Base.Dict.{Dict}
use ghost_ship.Base.FilePath.{base}
use ghost_ship.Config.{NodeManifest}
use ghost_ship.Ssh.{Reply, Server}
use ghost_ship.Nomad.Json.{Fields}
use ghost_ship.Nomad.Docker.{ContainerConfig}
use ghost_ship.Extractor.Sqlite.Shown.{last_shown, kept_as, database_loop-last}
use ghost_ship.Extractor.State.{
  Runtime, SystemState, database_paths, extract_databases, extract_system_state, put_docker,
  put_nomad, restore_system_state,
}
use ghost_ship.Extractor.State.Files.{
  Placed, HoldsFiles, IsRestorable, files_of, database_files, certificate_files, config_files,
  put_all, restore_system_state_files,
}
use ghost_ship.Extractor.State.Moved.{All-keep, state_of}

only_file :
    (P : Placed → Type 0) (databases : Dict String) (c : String)
    → databases ≡ ("x-ui.db", c) ∷ []
    → All P (database_files databases)
    → P ("/opt/3x-ui/db/x-ui.db", c)
only_file P databases c only h = (rw only at h).0

module _ (answers : String → Reply) (runtime : Runtime)
    (decode_container : String → Result ContainerConfig)
    (decode_objects : String → Result (List Fields)) (decode_object : String → Result Fields) where
  abbrev state : NodeManifest → SystemState
  state = state_of answers runtime decode_container decode_objects decode_object

  extract_databases-last :
      (log : List String)
      → (extract_databases (λ _ cmd. answers cmd) log).0
        ≡ kept_as "x-ui.db" (last_shown answers database_paths none)
  unfolding extract_databases base
  extract_databases-last log =
      database_loop-last answers base "x-ui.db" database_paths none log
        (refl, (refl, (refl, (refl, tt))))

  databases_of :
      (cfg : NodeManifest)
      → (state cfg).databases ≡ kept_as "x-ui.db" (last_shown answers database_paths none)
  unfolding extract_system_state
  databases_of cfg = extract_databases-last _

  module _ (target : Server) (sha256_hex base64 : String → String) where
    -- Of the four places of a database on a server with fixed replies, the last that shows one is
    -- kept, as the only database of the state. On a server that keeps apart the files that a restore of
    -- the state puts, where each has content that is not empty and whose hash no other text of its
    -- length has, the restore returns no error: it puts the files, after which that database is at the
    -- first of the four places, whatever place it came from, and then starts containers and jobs.
    pub restore_system_state-database :
        (cfg : NodeManifest) (log : List String) (c : String)
        (H : HoldsFiles target sha256_hex base64 (files_of (state cfg)))
        → All (λ (_, content). IsRestorable sha256_hex content) (files_of (state cfg))
        → last_shown answers database_paths none ≡ some c
        → let files_log : List String =
            (put_all target sha256_hex base64 (files_of (state cfg)) log).1 in
          ((state cfg).databases ≡ ("x-ui.db", c) ∷ [])
          × (H.file files_log "/opt/3x-ui/db/x-ui.db" ≡ some c)
          × (restore_system_state target sha256_hex base64 (state cfg) log ≡ (
            none,
            (put_nomad target sha256_hex base64
                (state cfg).nomad
                (put_docker target sha256_hex base64 (state cfg).docker files_log).1).1,
          ))
    restore_system_state-database cfg log c H r shown =
        let files_log : List String =
          (put_all target sha256_hex base64 (files_of (state cfg)) log).1 in
        let HasFile : Placed → Type 0 = λ (path, content). H.file files_log path ≡ some content in
        let (put, whole) =
          restore_system_state_files target sha256_hex base64 (state cfg) log H r in
        let only : (state cfg).databases ≡ ("x-ui.db", c) ∷ [] =
          databases_of cfg ∙ ap (kept_as "x-ui.db") shown in
        let those =
          All-keep HasFile (database_files (state cfg).databases)
            (certificate_files (state cfg).certificates ++ config_files (state cfg).configs) put in
        (only, only_file HasFile (state cfg).databases c only those, whole)
