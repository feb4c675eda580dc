-- ===== src/Tests/Replacing.antt =====
-- A database that replaces another one on its way to a second server.
use ghost_ship.Base.Order.{shuffled, put_at}
use ghost_ship.Base.{String, ◌≡◌, refl, none, some, List, [], ◌∷◌, All, ◌==◌, if◌then◌else◌, arith}
use ghost_ship.Base.Text.{trim_space, fields, split}
use ghost_ship.Base.Dict.{insert}
use ghost_ship.Base.FilePath.{base}
use ghost_ship.Ssh.{Reply}
use ghost_ship.Extractor.Read.{first_output, collect}
use ghost_ship.Extractor.Sqlite.{database_loop, extract_database}
use ghost_ship.Extractor.Sqlite.Shown.{first_shown, last_shown}
use ghost_ship.Extractor.Certs.{
  read_remote_file, extract_certificates, extract_xray_config, certificate_restore_path,
}
use ghost_ship.Extractor.State.{
  SystemState, database_paths, extract_configs, extract_databases, extract_system_info,
  extract_system_state, restore_system_state, put_docker, put_nomad,
}
use ghost_ship.Extractor.State.Files.{Placed, HoldsFiles, IsRestorable, files_of, put_all}
use ghost_ship.Extractor.State.Moved.{state_of}
use ghost_ship.Extractor.State.Databases.{restore_system_state-database}
use ghost_ship.Tests.Node.{runtime, node}
use ghost_ship.Tests.Migrating.{decode_container, decode_objects, decode_object}
use ghost_ship.Tests.Placing.{host, hash, encode, file, database, database-KeepsFile}

answers : String → Reply
answers cmd =
    if cmd == "cat /opt/3x-ui/db/x-ui.db 2>/dev/null"
    then record { out = "in use"; err = none }
    else if cmd == "cat /app/db/x-ui.db 2>/dev/null"
    then record { out = "SQLite"; err = none }
    else record { out = ""; err = some "exit status 1" }

abbrev state : SystemState
state = state_of answers runtime decode_container decode_objects decode_object node

one_file : files_of state ≡ (database, "SQLite") ∷ []
unfolding answers extract_system_state extract_certificates extract_xray_config extract_databases
    extract_configs shuffled put_at extract_system_info certificate_restore_path split trim_space
    insert fields database_loop extract_database first_output read_remote_file collect base
one_file = refl

last : last_shown answers database_paths none ≡ some "SQLite"
unfolding answers last_shown first_shown
last = refl

abbrev Holds : List Placed → Type 0
Holds files = HoldsFiles host hash encode files

host-Holds : Holds ((database, "SQLite") ∷ [])
host-Holds = record { file = file; keeps = (database-KeepsFile, tt); apart = (tt, tt) }

host-HoldsState : Holds (files_of state)
host-HoldsState = rw one_file host-Holds

restorable : All (λ (_, content). IsRestorable hash content) (files_of state)
restorable = rw one_file (record { some_bytes = omega arith; unique = λ c same long. same }, tt)

restore_system_state-database_example :
    let files_log : List String = (put_all host hash encode (files_of state) []).1 in
    (state.databases ≡ ("x-ui.db", "SQLite") ∷ [])
    × (host-HoldsState.file files_log "/opt/3x-ui/db/x-ui.db" ≡ some "SQLite")
    × (restore_system_state host hash encode state [] ≡ (
      none,
      (put_nomad host hash encode state.nomad
          (put_docker host hash encode state.docker files_log).1).1,
    ))
restore_system_state-database_example =
    restore_system_state-database answers runtime decode_container decode_objects decode_object host
      hash encode node [] "SQLite" host-HoldsState restorable last
