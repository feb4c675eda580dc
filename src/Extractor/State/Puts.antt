-- ===== src/Extractor/State/Puts.antt =====
-- Putting files: the server is asked for each of them, and no command that was sent is forgotten.
use ghost_ship.Base.{
  String, ◌<>◌, ◌≡◌, inl, inr, ◌⊎◌, true, List, [], ◌∷◌, arith, ◌==◌, eq_iff, eq_refl,
  if◌then◌else◌, Bool-cases, All, count, eqb, ◌≢◌, eq-false_iff,
}
use ghost_ship.Base.Dict.{Dict}
use ghost_ship.Ssh.{Server}
use ghost_ship.Nomad.Docker.Laws.{Sent}
use ghost_ship.Extractor.Certs.{certificate_restore_path}
use ghost_ship.Extractor.Restore.{
  sha_command, stat_command, parent_command, tee_command, inspect_remote_file,
}
use ghost_ship.Extractor.Restore.Frame.{IsKept, after_inspection, restore_keeps}
use ghost_ship.Extractor.State.{
  put_file, put_databases, put_certificates, put_configs, put_certificate, put_config, xray_path,
}

-- The server was asked for the file, unless there is nothing to put.
abbrev pub Asked : List String → String → String → Type 0
Asked log path content = (count content ≡ 0) ⊎ Sent log (sha_command true path)

abbrev pub DatabaseAsked : List String → String × String → Type 0
DatabaseAsked log (name, content) = Asked log ("/opt/3x-ui/db/" <> name) content

abbrev pub CertificateAsked : List String → String × String → Type 0
CertificateAsked log (name, content) =
    (certificate_restore_path name ≡ "") ⊎ Asked log (certificate_restore_path name) content

abbrev pub ConfigAsked : List String → String × String → Type 0
ConfigAsked log (name, content) = (name ≢ "xray.json") ⊎ Asked log xray_path content

pub later {ℓ κ μ} : {A : Type ℓ} {B : Type κ} {C : Type μ} → (B → C) → A ⊎ B → A ⊎ C
later f (inl a) = inl a
later f (inr b) = inr (f b)

cons_kept : (cmd x : String) (log : List String) → Sent log x → Sent (cmd ∷ log) x
cons_kept cmd x log h = ground arith

-- No command is forgotten.
Sent-IsKept :
    (base64 : String → String) (path content x : String)
    → IsKept base64 path content true (λ log. Sent log x)
Sent-IsKept base64 path content x = record {
  by_sha = cons_kept (sha_command true path) x;
  by_stat = cons_kept (stat_command true path) x;
  by_parent = cons_kept (parent_command true path) x;
  by_tee = cons_kept (tee_command true (base64 content) path) x;
}

module _ (server : Server) (sha256_hex base64 : String → String) where
  inspect-Sent :
      (path : String) (log : List String)
      → Sent (inspect_remote_file server path true log).1 (sha_command true path)
  unfolding inspect_remote_file
  inspect-Sent path log = ground (arith, eq_refl (sha_command true path))

  pub put_kept :
      (path content x : String) (log : List String)
      → Sent log x
      → Sent (put_file server sha256_hex base64 path content log).1 x
  put_kept path content x =
      restore_keeps server sha256_hex base64 path content true (λ log. Sent log x)
        (Sent-IsKept base64 path content x)

  pub put-Asked :
      (path content : String) (log : List String)
      → Asked (put_file server sha256_hex base64 path content log).1 path content
  put-Asked path content log =
      let sha = sha_command true path in
      elim (Bool-cases (eqb (count content) 0)) [
        | inl p ↦ inl (ground arith)
        | inr p ↦ inr (
            after_inspection server sha256_hex base64 path content true (λ log'. Sent log' sha)
              (Sent-IsKept base64 path content sha) log (ground arith) (inspect-Sent path log))
      ]

  pub databases_kept :
      (files : Dict String) (x : String) (log : List String)
      → Sent log x
      → Sent (put_databases server sha256_hex base64 files log).1 x
  unfolding put_databases
  databases_kept [] x log h = h
  databases_kept ((name, content) ∷ files) x log h =
      let path : String = "/opt/3x-ui/db/" <> name in
      databases_kept files x (put_file server sha256_hex base64 path content log).1
        (put_kept path content x log h)

  pub databases-Asked :
      (files : Dict String) (log : List String)
      → All (DatabaseAsked (put_databases server sha256_hex base64 files log).1) files
  unfolding put_databases
  databases-Asked [] log = tt
  databases-Asked ((name, content) ∷ files) log =
      let path : String = "/opt/3x-ui/db/" <> name in
      let log' : List String = (put_file server sha256_hex base64 path content log).1 in
      (
        later (databases_kept files (sha_command true path) log') (put-Asked path content log),
        databases-Asked files log',
      )

  certificate_kept :
      (name content x : String) (log : List String)
      → Sent log x
      → Sent (put_certificate server sha256_hex base64 name content log).1 x
  certificate_kept name content x log h = elim (Bool-cases (certificate_restore_path name == "")) [
    | inl p ↦ rw (p, if◌then◌else◌) h
    | inr p ↦ rw (p, if◌then◌else◌) (put_kept (certificate_restore_path name) content x log h)
  ]

  pub certificates_kept :
      (files : Dict String) (x : String) (log : List String)
      → Sent log x
      → Sent (put_certificates server sha256_hex base64 files log).1 x
  unfolding put_certificates
  certificates_kept [] x log h = h
  certificates_kept ((name, content) ∷ files) x log h =
      certificates_kept files x (put_certificate server sha256_hex base64 name content log).1
        (certificate_kept name content x log h)

  pub certificates-Asked :
      (files : Dict String) (log : List String)
      → All (CertificateAsked (put_certificates server sha256_hex base64 files log).1) files
  unfolding put_certificates
  certificates-Asked [] log = tt
  certificates-Asked ((name, content) ∷ files) log =
      let path : String = certificate_restore_path name in
      let log' : List String = (put_certificate server sha256_hex base64 name content log).1 in
      (
        elim (Bool-cases (path == "")) [
          | inl p ↦ inl ((eq_iff path "").0 p)
          | inr p ↦ inr (
              later (certificates_kept files (sha_command true path) log')
                (rw (p, if◌then◌else◌) (put-Asked path content log)))
        ],
        certificates-Asked files log',
      )

  config_kept :
      (name content x : String) (log : List String)
      → Sent log x
      → Sent (put_config server sha256_hex base64 name content log).1 x
  config_kept name content x log h = elim (Bool-cases (name == "xray.json")) [
    | inl p ↦ rw (p, if◌then◌else◌) (put_kept xray_path content x log h)
    | inr p ↦ rw (p, if◌then◌else◌) h
  ]

  pub configs_kept :
      (files : Dict String) (x : String) (log : List String)
      → Sent log x
      → Sent (put_configs server sha256_hex base64 files log).1 x
  unfolding put_configs
  configs_kept [] x log h = h
  configs_kept ((name, content) ∷ files) x log h =
      configs_kept files x (put_config server sha256_hex base64 name content log).1
        (config_kept name content x log h)

  pub configs-Asked :
      (files : Dict String) (log : List String)
      → All (ConfigAsked (put_configs server sha256_hex base64 files log).1) files
  unfolding put_configs
  configs-Asked [] log = tt
  configs-Asked ((name, content) ∷ files) log =
      let log' : List String = (put_config server sha256_hex base64 name content log).1 in
      (
        elim (Bool-cases (name == "xray.json")) [
          | inl p ↦ inr (
              later (configs_kept files (sha_command true xray_path) log')
                (rw (p, if◌then◌else◌) (put-Asked xray_path content log)))
          | inr p ↦ inl ((eq-false_iff name "xray.json").0 p)
        ],
        configs-Asked files log',
      )
