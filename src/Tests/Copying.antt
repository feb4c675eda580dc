-- ===== src/Tests/Copying.antt =====
-- The certificate of one server on another.
use ghost_ship.Base.Order.{shuffled, put_at}
use ghost_ship.Base.{String, ◌≡◌, refl, none, some, List, [], ◌∷◌, All, ◌==◌, if◌then◌else◌, arith}
use ghost_ship.Base.Text.{trim_space, fields, split}
use ghost_ship.Base.Text.Split.{Lacks}
use ghost_ship.Base.Dict.{insert}
use ghost_ship.Config.{NodeManifest}
use ghost_ship.Ssh.{Reply}
use ghost_ship.Extractor.Read.{first_output, collect}
use ghost_ship.Extractor.Sqlite.{database_loop, extract_database}
use ghost_ship.Extractor.Certs.{
  read_remote_file, extract_certificates, extract_xray_config, domains_of, list_command,
  certificate_restore_path,
}
use ghost_ship.Extractor.State.{
  SystemState, put_docker, put_nomad, extract_configs, extract_databases, extract_system_info,
  extract_system_state, restore_system_state,
}
use ghost_ship.Extractor.State.Files.{Placed, HoldsFiles, IsRestorable, files_of, put_all}
use ghost_ship.Extractor.State.Moved.{IsMoved, state_of, restore_system_state-extract_system_state}
use ghost_ship.Tests.Node.{runtime, node}
use ghost_ship.Tests.Migrating.{decode_container, decode_objects, decode_object}
use ghost_ship.Tests.Placing.{host, hash, encode, file, certificate, certificate-KeepsFile}

pub answers : String → Reply
answers cmd =
    if cmd == list_command
    then record { out = "ru\n"; err = none }
    else if cmd == "cat /etc/letsencrypt/live/ru/cert.pem 2>/dev/null"
    then record { out = "pem"; err = none }
    else record { out = ""; err = some "exit status 1" }

-- Whatever the manifest.
one_file :
    (cfg : NodeManifest)
    → files_of (state_of answers runtime decode_container decode_objects decode_object cfg)
      ≡ (certificate, "pem") ∷ []
unfolding answers extract_system_state extract_certificates extract_xray_config extract_databases
    extract_configs shuffled put_at extract_system_info certificate_restore_path split trim_space
    insert fields database_loop extract_database first_output read_remote_file collect
one_file cfg = refl

abbrev Holds : List Placed → Type 0
Holds files = HoldsFiles host hash encode files

host-Holds : Holds ((certificate, "pem") ∷ [])
host-Holds = record { file = file; keeps = (certificate-KeepsFile, tt); apart = (tt, tt) }

pub host-HoldsState :
    (cfg : NodeManifest)
    → Holds (files_of (state_of answers runtime decode_container decode_objects decode_object cfg))
host-HoldsState cfg = rw (one_file cfg) host-Holds

pub restorable :
    (cfg : NodeManifest)
    → All
        (λ (_, content). IsRestorable hash content)
        (files_of (state_of answers runtime decode_container decode_objects decode_object cfg))
restorable cfg =
    rw (one_file cfg) (record { some_bytes = omega arith; unique = λ c same long. same }, tt)

one_domain : All (λ word. Lacks b'/' (trim_space word)) (domains_of (answers list_command))
unfolding answers trim_space fields
one_domain = ground arith

restore_system_state-extract_system_state_example :
    let state : SystemState =
      state_of answers runtime decode_container decode_objects decode_object node in
    let files_log : List String = (put_all host hash encode (files_of state) []).1 in
    All (IsMoved answers ((host-HoldsState node).file files_log)) state.certificates
    × (restore_system_state host hash encode state [] ≡ (
      none,
      (put_nomad host hash encode state.nomad
          (put_docker host hash encode state.docker files_log).1).1,
    ))
restore_system_state-extract_system_state_example =
    restore_system_state-extract_system_state answers runtime decode_container decode_objects
      decode_object host hash encode node [] (host-HoldsState node) (restorable node) one_domain
