-- ===== src/Extractor/State/Laws.antt =====
-- A restore of a whole state asks for every file and starts everything, whatever fails.
use ghost_ship.Base.{
  String, ◌≡◌, refl, inl, inr, false, none, List, [], ◌∷◌, arith, if◌then◌else◌, Bool-cases, All,
  ltb, length,
}
use ghost_ship.Ssh.{Server}
use ghost_ship.Nomad.Docker.{DockerState}
use ghost_ship.Nomad.Docker.Laws.{
  Sent, ContainerSent, All-map, docker_kept, restore_docker_state_tries,
}
use ghost_ship.Nomad.Jobs.{NomadState, restore_nomad_state}
use ghost_ship.Nomad.Jobs.Laws.{JobSent, jobs_kept, restore_nomad_state_tries}
use ghost_ship.Base.FilePath.{base}
use ghost_ship.Extractor.Sqlite.Collision.{IsOnly, database_loop-IsOnly}
use ghost_ship.Extractor.State.{
  extract_databases, database_paths, SystemState, put_databases, put_certificates, put_configs,
  put_docker, put_nomad, restore_system_state,
}
use ghost_ship.Extractor.State.Puts.{
  DatabaseAsked, CertificateAsked, ConfigAsked, later, databases-Asked, certificates_kept,
  certificates-Asked, configs_kept, configs-Asked,
}

All-empty {ℓ} : {A : Type ℓ} (P : A → Type 0) (xs : List A) → ltb 0 (length xs) ≡ false → All P xs
All-empty P [] h = tt
All-empty P (x ∷ xs) h = absurd (ground arith)

module _ (server : Server) (sha256_hex base64 : String → String) where
  put_docker_kept :
      (docker : DockerState) (x : String) (log : List String)
      → Sent log x
      → Sent (put_docker server sha256_hex base64 docker log).1 x
  put_docker_kept docker x log h = elim (Bool-cases (ltb 0 (length docker.containers))) [
    | inl p ↦ rw (p, if◌then◌else◌) (docker_kept server docker x log h)
    | inr p ↦ rw (p, if◌then◌else◌) h
  ]

  put_nomad_kept :
      (nomad : NomadState) (x : String) (log : List String)
      → Sent log x
      → Sent (put_nomad server sha256_hex base64 nomad log).1 x
  unfolding restore_nomad_state
  put_nomad_kept nomad x log h = elim (Bool-cases (ltb 0 (length nomad.jobs))) [
    | inl p ↦ rw (p, if◌then◌else◌) (jobs_kept server nomad.jobs x log h)
    | inr p ↦ rw (p, if◌then◌else◌) h
  ]

  put_docker-Sent :
      (docker : DockerState) (log : List String)
      → All (ContainerSent (put_docker server sha256_hex base64 docker log).1) docker.containers
  put_docker-Sent docker log = elim (Bool-cases (ltb 0 (length docker.containers))) [
    | inl p ↦ rw (p, if◌then◌else◌) (restore_docker_state_tries server docker log).3
    | inr p ↦
        All-empty (ContainerSent (put_docker server sha256_hex base64 docker log).1)
          docker.containers p
  ]

  put_nomad-Sent :
      (nomad : NomadState) (log : List String)
      → All (JobSent (put_nomad server sha256_hex base64 nomad log).1) nomad.jobs
  put_nomad-Sent nomad log = elim (Bool-cases (ltb 0 (length nomad.jobs))) [
    | inl p ↦ rw (p, if◌then◌else◌) (restore_nomad_state_tries server nomad log).1
    | inr p ↦ All-empty (JobSent (put_nomad server sha256_hex base64 nomad log).1) nomad.jobs p
  ]

  -- A restore returns no error and tries every part of the state, whatever the server replies: by
  -- its end it has asked for each database, for each certificate whose key has a path and for the
  -- configuration of Xray, where they are not empty, and has sent the start of every container that
  -- has an image and the specification of every job that has one.
  pub restore_system_state_tries :
      (state : SystemState) (log : List String)
      → let (e, end) = restore_system_state server sha256_hex base64 state log in
        (e ≡ none)
        × All (DatabaseAsked end) state.databases
        × All (CertificateAsked end) state.certificates
        × All (ConfigAsked end) state.configs
        × All (ContainerSent end) state.docker.containers
        × All (JobSent end) state.nomad.jobs
  unfolding restore_system_state
  restore_system_state_tries state log =
      let log₁ : List String = (put_databases server sha256_hex base64 state.databases log).1 in
      let log₂ : List String =
        (put_certificates server sha256_hex base64 state.certificates log₁).1 in
      let log₃ : List String = (put_configs server sha256_hex base64 state.configs log₂).1 in
      let log₄ : List String = (put_docker server sha256_hex base64 state.docker log₃).1 in
      let at_end = λ (x : String) (h : Sent log₄ x). put_nomad_kept state.nomad x log₄ h in
      let from_docker =
        λ (x : String) (h : Sent log₃ x). at_end x (put_docker_kept state.docker x log₃ h) in
      let from_configs = λ (x : String) (h : Sent log₂ x).
        from_docker x (configs_kept server sha256_hex base64 state.configs x log₂ h) in
      let from_certs = λ (x : String) (h : Sent log₁ x).
        from_configs x (certificates_kept server sha256_hex base64 state.certificates x log₁ h) in
      (
        refl,
        All-map state.databases (λ (name, content) p. later (from_certs _) p)
            (databases-Asked server sha256_hex base64 state.databases log),
        All-map state.certificates (λ (name, content) p. later (later (from_configs _)) p)
            (certificates-Asked server sha256_hex base64 state.certificates log₁),
        All-map state.configs (λ (name, content) p. later (later (from_docker _)) p)
            (configs-Asked server sha256_hex base64 state.configs log₂),
        All-map state.docker.containers (λ c p. later (at_end _) p)
            (put_docker-Sent state.docker log₃),
        put_nomad-Sent state.nomad log₄,
      )

-- Of the four places of a database the extraction keeps one at most, whatever they hold: the base
-- names of their paths are the same.
pub extract_databases-IsOnly :
    (server : Server) (log : List String) → IsOnly "x-ui.db" (extract_databases server log).0
unfolding extract_databases base
extract_databases-IsOnly server log =
    database_loop-IsOnly server base "x-ui.db" database_paths [] log
      (refl, (refl, (refl, (refl, tt)))) tt
