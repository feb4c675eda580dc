-- ===== src/Extractor/State/Files.antt =====
-- The files that a restore puts, one after the other, on a server that keeps files.
use ghost_ship.Base.{
  String, ◌<>◌, ◌≡◌, refl, ◌≢◌, inl, inr, Error, Option, true, none, some, List, [], ◌∷◌, ◌++◌, All,
  count, ◌==◌, if◌then◌else◌, Bool-cases, ap, sym, ◌∙◌,
}
use ghost_ship.Base.Dict.{Dict}
use ghost_ship.Ssh.{Server, Ssh, pure, ◌>>◌}
use ghost_ship.Extractor.Certs.{certificate_restore_path}
use ghost_ship.Extractor.Restore.File.{HoldsFile, IsWritable, restore_bytes_if_changed_succeeds}
use ghost_ship.Extractor.Restore.Frame.{IsKept, restore_keeps}
use ghost_ship.Extractor.State.{
  SystemState, put_file, put_databases, put_certificates, put_configs, put_docker, put_nomad,
  xray_path, restore_system_state,
}

-- A path and the content for it.
abbrev pub Placed : Type 0
Placed = String × String

abbrev pub database_files : Dict String → List Placed
database_files [] = []
database_files ((name, content) ∷ databases) =
    ("/opt/3x-ui/db/" <> name, content) ∷ database_files databases

abbrev pub certificate_files : Dict String → List Placed
certificate_files [] = []
certificate_files ((name, content) ∷ certs) =
    let rest = certificate_files certs in
    let path = certificate_restore_path name in if path == "" then rest else (path, content) ∷ rest

abbrev pub config_files : Dict String → List Placed
config_files [] = []
config_files ((name, content) ∷ configs) =
    let rest = config_files configs in
    if name == "xray.json" then (xray_path, content) ∷ rest else rest

-- The files that a restore of a state puts, in its order: the databases, the certificates whose keys
-- lead to a path and the configuration of Xray. The SSH keys and the other configurations of the state
-- are not among them.
abbrev pub files_of : SystemState → List Placed
files_of state =
    database_files state.databases
    ++ (certificate_files state.certificates ++ config_files state.configs)

-- One file of a server that keeps files by their paths.
pub record KeepsFile (server : Server) (sha256_hex base64 : String → String)
    (file : List String → String → Option String) (path content : String) : Type 0 where
  pub holds : HoldsFile server sha256_hex path true
  pub is_file : (log : List String) → holds.file log ≡ file log path
  pub writable : IsWritable server sha256_hex base64 path content true holds

-- Putting a file leaves another one as it is.
abbrev pub LeavesAlone :
    (String → String) → (List String → String → Option String) → Placed → Placed → Type 0
LeavesAlone base64 file (path, _) (other, content) =
    (o : Option String) → IsKept base64 other content true (λ log. file log path ≡ o)

abbrev pub Pairwise {ℓ} : {A : Type ℓ} → (A → A → Type 0) → List A → Type 0
Pairwise R [] = Unit
Pairwise R (x ∷ xs) = All (R x) xs × Pairwise R xs

-- A server that keeps some files, each apart from those that are put after it.
pub record HoldsFiles (server : Server) (sha256_hex base64 : String → String) (files : List Placed)
    : Type 0 where
  pub file : List String → String → Option String
  pub keeps : All (λ (path, content). KeepsFile server sha256_hex base64 file path content) files
  pub apart : Pairwise (LeavesAlone base64 file) files

-- Content that is not empty, and whose hash no other text of its length has.
pub record IsRestorable (sha256_hex : String → String) (content : String) : Type 0 where
  pub some_bytes : count content ≢ 0
  pub unique :
      (c : String) → sha256_hex c ≡ sha256_hex content → count c ≡ count content → c ≡ content

module _ (server : Server) (sha256_hex base64 : String → String) where
  -- The reference: a list of files, one after the other.
  abbrev pub put_all : List Placed → Ssh Error
  put_all [] = pure none
  put_all ((path, content) ∷ files) =
      put_file server sha256_hex base64 path content >> put_all files

  put_all-append :
      (xs ys : List Placed) (log : List String)
      → put_all (xs ++ ys) log ≡ put_all ys (put_all xs log).1
  put_all-append [] ys log = refl
  put_all-append ((path, content) ∷ xs) ys log =
      put_all-append xs ys (put_file server sha256_hex base64 path content log).1

  databases-put_all :
      (files : Dict String) (log : List String)
      → put_databases server sha256_hex base64 files log ≡ put_all (database_files files) log
  unfolding put_databases
  databases-put_all [] log = refl
  databases-put_all ((name, content) ∷ files) log =
      databases-put_all files
        (put_file server sha256_hex base64 ("/opt/3x-ui/db/" <> name) content log).1

  certificates-put_all :
      (files : Dict String) (log : List String)
      → put_certificates server sha256_hex base64 files log ≡ put_all (certificate_files files) log
  unfolding put_certificates
  certificates-put_all [] log = refl
  certificates-put_all ((name, content) ∷ files) log =
      elim (Bool-cases (certificate_restore_path name == "")) [
        | inl p ↦ rw (p, if◌then◌else◌) (certificates-put_all files log)
        | inr p ↦
            rw (p, if◌then◌else◌)
              (certificates-put_all files
                (put_file server sha256_hex base64 (certificate_restore_path name) content log).1)
      ]

  configs-put_all :
      (files : Dict String) (log : List String)
      → put_configs server sha256_hex base64 files log ≡ put_all (config_files files) log
  unfolding put_configs
  configs-put_all [] log = refl
  configs-put_all ((name, content) ∷ files) log = elim (Bool-cases (name == "xray.json")) [
    | inl p ↦
        rw (p, if◌then◌else◌)
          (configs-put_all files (put_file server sha256_hex base64 xray_path content log).1)
    | inr p ↦ rw (p, if◌then◌else◌) (configs-put_all files log)
  ]

  -- A restore puts the files, and then starts Docker's containers and Nomad's jobs.
  pub restore-put_all :
      (state : SystemState) (log : List String)
      → let files_log : List String = (put_all (files_of state) log).1 in
        restore_system_state server sha256_hex base64 state log ≡ (
          none,
          (put_nomad server sha256_hex base64 state.nomad
              (put_docker server sha256_hex base64 state.docker files_log).1).1,
        )
  unfolding restore_system_state
  restore-put_all state log =
      let log₁ : List String = (put_databases server sha256_hex base64 state.databases log).1 in
      let log₂ : List String =
        (put_certificates server sha256_hex base64 state.certificates log₁).1 in
      let later : List Placed =
        certificate_files state.certificates ++ config_files state.configs in
      let whole =
        put_all-append (database_files state.databases) later log
        ∙ put_all-append (certificate_files state.certificates) (config_files state.configs)
            (put_all (database_files state.databases) log).1
        ∙ ap
            (λ (l : List String).
              put_all (config_files state.configs)
                (put_all (certificate_files state.certificates) l).1)
            (sym (ap (λ (r : Error × List String). r.1) (databases-put_all state.databases log)))
        ∙ ap (λ (l : List String). put_all (config_files state.configs) l)
            (sym (
              ap (λ (r : Error × List String). r.1) (certificates-put_all state.certificates log₁)))
        ∙ sym (configs-put_all state.configs log₂) in
      ap
        (λ (r : Error × List String). (
          none,
          (put_nomad server sha256_hex base64 state.nomad
              (put_docker server sha256_hex base64 state.docker r.1).1).1,
        ))
        (sym whole)

  module _ (file : List String → String → Option String) where
    put_all_leaves :
        (path : String) (c : String) (files : List Placed) (o : Option String) (log : List String)
        → All (LeavesAlone base64 file (path, c)) files
        → file log path ≡ o
        → file (put_all files log).1 path ≡ o
    put_all_leaves path c [] o log a h = h
    put_all_leaves path c ((other, content) ∷ files) o log (k, a) h =
        put_all_leaves path c files o (put_file server sha256_hex base64 other content log).1 a (
          restore_keeps server sha256_hex base64 other content true (λ l. file l path ≡ o) (k o) log
            h)

    put_all_sets :
        (files : List Placed) (log : List String)
        → All (λ (path, content). KeepsFile server sha256_hex base64 file path content) files
        → Pairwise (LeavesAlone base64 file) files
        → All (λ (_, content). IsRestorable sha256_hex content) files
        → All (λ (path, content). file (put_all files log).1 path ≡ some content) files
    put_all_sets [] log k a r = tt
    put_all_sets ((path, content) ∷ files) log (k, kept) (a, apart) (r, rest) =
        let log' : List String = (put_file server sha256_hex base64 path content log).1 in
        let set =
          restore_bytes_if_changed_succeeds server sha256_hex base64 path content true k.holds
            k.writable log r.unique r.some_bytes in
        (
          put_all_leaves path content files (some content) log' a (sym (k.is_file log') ∙ set.1),
          put_all_sets files log' kept apart rest,
        )

  pub restore_system_state_files :
      (state : SystemState) (log : List String)
      (H : HoldsFiles server sha256_hex base64 (files_of state))
      → All (λ (_, content). IsRestorable sha256_hex content) (files_of state)
      → let files_log : List String = (put_all (files_of state) log).1 in
        All (λ (path, content). H.file files_log path ≡ some content) (files_of state)
        × (restore_system_state server sha256_hex base64 state log ≡ (
          none,
          (put_nomad server sha256_hex base64 state.nomad
              (put_docker server sha256_hex base64 state.docker files_log).1).1,
        ))
  restore_system_state_files state log H r =
      (put_all_sets H.file (files_of state) log H.keeps H.apart r, restore-put_all state log)
