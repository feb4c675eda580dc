-- ===== src/Extractor/Reads/Jobs.antt =====
-- The extraction of Nomad's state reads.
use ghost_ship.Base.{
  String, ◌<>◌, ◌≡◌, refl, inl, inr, true, Result, List, [], ◌∷◌, arith, Option-cases, Result-cases,
}
use ghost_ship.Ssh.{Server}
use ghost_ship.Nomad.Json.{Fields, as_string, get}
use ghost_ship.Nomad.Jobs.{
  NomadJob, inspect_command, append_job, validate_nomad_install, extract_nomad_job_details,
  job_loop, extract_nomad_jobs, extract_nomad_state,
}
use ghost_ship.Extractor.Reads.{is_read, starts_with_one, all_read, read_more, start_reads}

module _ (server : Server) where
  install_reads :
      (log : List String)
      → all_read log ≡ true
      → all_read (validate_nomad_install server log).1 ≡ true
  unfolding validate_nomad_install is_read starts_with_one
  install_reads log h =
      let log₁ : List String = "which nomad" ∷ log in
      let log₂ : List String = "nomad version" ∷ log₁ in
      let log₃ : List String = "docker --version" ∷ log₂ in
      let h₁ = read_more "which nomad" log refl h in
      let h₂ = read_more "nomad version" log₁ refl h₁ in
      let h₃ = read_more "docker --version" log₂ refl h₂ in
      let h₄ = read_more "which containerd" log₃ refl h₃ in
      elim (Option-cases (server log "which nomad").err) [
        | inr (e, p) ↦ ground (arith, p, h₁)
        | inl p ↦ elim (Option-cases (server log₁ "nomad version").err) [
          | inr (e, q) ↦ ground (arith, p, q, h₂)
          | inl q ↦ ground (arith, p, q, h₄)
        ]
      ]

module _ (server : Server) (decode_jobs : String → Result (List Fields))
    (decode_job : String → Result Fields) where
  details_reads :
      (id : String) (log : List String)
      → all_read log ≡ true
      → all_read (extract_nomad_job_details server decode_jobs decode_job id log).1 ≡ true
  unfolding extract_nomad_job_details
  details_reads id log h =
      let h' =
        read_more (inspect_command id) log
          (start_reads "nomad job inspect " (id <> " -json 2>/dev/null") refl) h in
      elim (Option-cases (server log (inspect_command id)).err) [
        | inr (e, p) ↦ ground (arith, p, h')
        | inl p ↦ ground (arith, p, h')
      ]

  job_reads :
      (infos : List Fields) (jobs : List NomadJob) (log : List String)
      → all_read log ≡ true
      → all_read (job_loop server decode_jobs decode_job infos jobs log).1 ≡ true
  unfolding job_loop
  job_reads [] jobs log h = h
  job_reads (info ∷ infos) jobs log h = elim (Option-cases (as_string (get "ID" info))) [
    | inl p ↦ ground (arith, p, job_reads infos jobs log h)
    | inr (id, p) ↦
        let r = extract_nomad_job_details server decode_jobs decode_job id log in
        ground (arith, p, job_reads infos (append_job jobs r.0) r.1 (details_reads id log h))
  ]

  abbrev list_jobs : String
  list_jobs = "nomad job list -json 2>/dev/null"

  jobs_reads :
      (log : List String)
      → all_read log ≡ true
      → all_read (extract_nomad_jobs server decode_jobs decode_job log).1 ≡ true
  unfolding extract_nomad_jobs is_read starts_with_one
  jobs_reads log h =
      let h' = read_more list_jobs log refl h in
      elim (Option-cases (server log list_jobs).err) [
        | inr (e, p) ↦ ground (arith, p, h')
        | inl p ↦ elim (Result-cases (decode_jobs (server log list_jobs).out)) [
          | inr (e, q) ↦ ground (arith, p, q, h')
          | inl (infos, q) ↦ ground (arith, p, q, job_reads infos [] (list_jobs ∷ log) h')
        ]
      ]

  pub extract_nomad_state_reads :
      (log : List String)
      → all_read log ≡ true
      → all_read (extract_nomad_state server decode_jobs decode_job log).1 ≡ true
  unfolding extract_nomad_state
  extract_nomad_state_reads log h =
      let r = validate_nomad_install server log in
      let h' = install_reads server log h in
      elim (Option-cases r.0) [
        | inr (e, p) ↦ ground (arith, p, h')
        | inl p ↦ ground (arith, p, jobs_reads r.1 h')
      ]
