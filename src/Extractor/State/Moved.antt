-- ===== src/Extractor/State/Moved.antt =====
-- The certificates of one server on another: extracted from the one and restored on the other.
use ghost_ship.Base.{
  String, ◌<>◌, ◌≡◌, refl, ap, false, Result, Option, none, some, List, [], ◌∷◌, ◌++◌, All, arith,
  ◌==◌, eq-false_iff, starts_with,
}
use text.Mathlib.TextPositions.{starts_with-append}
use ghost_ship.Base.Dict.{Dict}
use ghost_ship.Base.Text.{trim_space}
use ghost_ship.Base.Text.Split.{Lacks}
use ghost_ship.Config.{NodeManifest}
use ghost_ship.Ssh.{Reply, Server}
use ghost_ship.Nomad.Json.{Fields}
use ghost_ship.Nomad.Docker.{ContainerConfig}
use ghost_ship.Extractor.Certs.{
  live, list_command, domains_of, certificate_restore_path, extract_certificates,
}
use ghost_ship.Extractor.Certs.Paths.{
  shown_file, certificate_restore_path-key, extract_certificates-All,
}
use ghost_ship.Extractor.State.{
  Runtime, SystemState, extract_system_state, extract_system_info, put_docker, put_nomad,
  restore_system_state,
}
use ghost_ship.Extractor.State.Files.{
  Placed, HoldsFiles, IsRestorable, files_of, database_files, certificate_files, config_files,
  put_all, restore_system_state_files,
}

-- A certificate with the content that a server shows at the path where it will be put.
abbrev pub IsSourced : (String → Reply) → String × String → Type 0
IsSourced answers (key, content) =
    ((certificate_restore_path key == "") ≡ false)
    × (shown_file answers (certificate_restore_path key) ≡ some content)

All-drop {ℓ κ} : {A : Type ℓ} (P : A → Type κ) (xs ys : List A) → All P (xs ++ ys) → All P ys
All-drop P [] ys h = h
All-drop P (x ∷ xs) ys (p, h) = All-drop P xs ys h

pub All-keep {ℓ κ} : {A : Type ℓ} (P : A → Type κ) (xs ys : List A) → All P (xs ++ ys) → All P xs
All-keep P [] ys h = tt
All-keep P (x ∷ xs) ys (p, h) = (p, All-keep P xs ys h)

not_empty : (s t : String) → starts_with "" s ≡ false → (s <> t == "") ≡ false
not_empty s t h = (eq-false_iff (s <> t) "").1 (λ e.
    absurd (ground (arith, h, ap (λ (x : String). starts_with x s) e, starts_with-append s t)))

module _ (answers : String → Reply) where
  sourced :
      (domain name content : String)
      → Lacks b'/' domain
      → Lacks b'/' name
      → shown_file answers (live <> domain <> "/" <> name) ≡ some content
      → IsSourced answers (domain <> "/" <> name, content)
  sourced domain name content d n shown =
      let e = certificate_restore_path-key domain name d n in
      rw e (not_empty live (domain <> "/" <> name) refl, shown)

  certificates-IsSourced :
      (log : List String)
      → All (λ word. Lacks b'/' (trim_space word)) (domains_of (answers list_command))
      → All (IsSourced answers) (extract_certificates (λ _ cmd. answers cmd) log).0
  certificates-IsSourced log d =
      extract_certificates-All answers (Lacks b'/') (Lacks b'/') (IsSourced answers) sourced log d
        (ground arith)

  -- The same content at the path of every certificate.
  module _ (file : String → Option String) where
    abbrev pub IsMoved : String × String → Type 0
    IsMoved (key, content) =
        (file (certificate_restore_path key) ≡ some content)
        × (shown_file answers (certificate_restore_path key) ≡ some content)

    moved :
        (certs : Dict String)
        → All (IsSourced answers) certs
        → All (λ (path, content). file path ≡ some content) (certificate_files certs)
        → All IsMoved certs
    moved [] s h = tt
    moved ((key, content) ∷ certs) ((p, shown), s) h =
        let (h₀, h₁) = rw p at h in ((h₀, shown), moved certs s h₁)

module _ (answers : String → Reply) (runtime : Runtime)
    (decode_container : String → Result ContainerConfig)
    (decode_objects : String → Result (List Fields)) (decode_object : String → Result Fields) where
  abbrev pub state_of : NodeManifest → SystemState
  state_of cfg =
      (extract_system_state (λ _ cmd. answers cmd) runtime decode_container decode_objects
        decode_object cfg []).0

  certificates_of :
      (cfg : NodeManifest)
      → All (λ word. Lacks b'/' (trim_space word)) (domains_of (answers list_command))
      → All (IsSourced answers) (state_of cfg).certificates
  unfolding extract_system_state
  certificates_of cfg d =
      certificates-IsSourced answers (extract_system_info (λ _ cmd. answers cmd) []).1 d

  module _ (target : Server) (sha256_hex base64 : String → String) where
    -- The certificates of a server with fixed replies, of which no domain has a slash, reach a server
    -- that keeps the files of the state apart, where each has content that is not empty and whose hash
    -- no other text of its length has: the restore of the extracted state returns no error, and behind
    -- its files, before it starts containers and jobs, the target has for each certificate, at the
    -- path that its key leads to, the text that the source shows at this same path.
    pub restore_system_state-extract_system_state :
        (cfg : NodeManifest) (log : List String)
        (H : HoldsFiles target sha256_hex base64 (files_of (state_of cfg)))
        → All (λ (_, content). IsRestorable sha256_hex content) (files_of (state_of cfg))
        → All (λ word. Lacks b'/' (trim_space word)) (domains_of (answers list_command))
        → let files_log : List String =
            (put_all target sha256_hex base64 (files_of (state_of cfg)) log).1 in
          All (IsMoved answers (H.file files_log)) (state_of cfg).certificates
          × (restore_system_state target sha256_hex base64 (state_of cfg) log ≡ (
            none,
            (put_nomad target sha256_hex base64
                (state_of cfg).nomad
                (put_docker target sha256_hex base64 (state_of cfg).docker files_log).1).1,
          ))
    restore_system_state-extract_system_state cfg log H r d =
        let state : SystemState = state_of cfg in
        let files_log : List String = (put_all target sha256_hex base64 (files_of state) log).1 in
        let HasFile : Placed → Type 0 = λ (path, content). H.file files_log path ≡ some content in
        let (put, whole) = restore_system_state_files target sha256_hex base64 state log H r in
        let later =
          All-drop HasFile (database_files state.databases)
            (certificate_files state.certificates ++ config_files state.configs) put in
        let those =
          All-keep HasFile (certificate_files state.certificates) (config_files state.configs)
            later in
        (moved answers (H.file files_log) state.certificates (certificates_of cfg d) those, whole)
