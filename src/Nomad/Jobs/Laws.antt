-- ===== src/Nomad/Jobs/Laws.antt =====
-- Nomad's jobs: when the installation is accepted, what a restore sends, and what an extraction
-- keeps of a job.
use ghost_ship.Base.{
  String, ◌≡◌, refl, inl, inr, ◌⊎◌, ◌↔◌, Result, ok, none, List, [], ◌∷◌, arith, ◌==◌, Bool-cases,
  All, All-append, eq_iff, eq_refl, Result-cases, Option-cases,
}
use ghost_ship.Ssh.{Reply, Server}
use ghost_ship.Nomad.Json.{Fields, as_string, get}
use ghost_ship.Nomad.Docker.Laws.{Sent, fixed}
use ghost_ship.Nomad.Jobs.{
  NomadJob, NomadState, job_write, job_run, job_remove, job_of, inspect_command,
  validate_nomad_install, restore_nomad_job, restore_jobs, restore_nomad_state, append_job,
  job_from, extract_nomad_job_details, job_loop, extract_nomad_jobs, extract_nomad_state,
  found_jobs,
}

abbrev pub JobSent : List String → NomadJob → Type 0
JobSent log job = (job.raw_jobspec ≡ "") ⊎ Sent log (job_write job)

module _ (server : Server) where
  abbrev pub version_log : List String → List String
  version_log log = "nomad version" ∷ "which nomad" ∷ log

  -- The installation is accepted exactly if `which nomad` and `nomad version` succeed and one of
  -- the two commands after them prints something, whether it succeeds or not.
  pub validate_nomad_install-none_iff :
      (log : List String)
      → ((validate_nomad_install server log).0 ≡ none) ↔ (
          ((server log "which nomad").err ≡ none)
          × ((server ("which nomad" ∷ log) "nomad version").err ≡ none)
          × (¬ (
              ((server (version_log log) "docker --version").out ≡ "")
              × ((server ("docker --version" ∷ version_log log) "which containerd").out ≡ ""))))
  unfolding validate_nomad_install
  validate_nomad_install-none_iff log =
      let a = (server (version_log log) "docker --version").out in
      let b = (server ("docker --version" ∷ version_log log) "which containerd").out in
      (
        λ h. (ground arith, ground arith, λ (p, q). ground (arith, p, q, eq_iff a "", eq_iff b "")),
        λ (p, q, r). elim (Bool-cases (a == "")) [
          | inl u ↦ elim (Bool-cases (b == "")) [
            | inl v ↦ absurd (r ((eq_iff a "").0 u, (eq_iff b "").0 v))
            | inr v ↦ ground (arith, p, q, v)
          ]
          | inr u ↦ ground (arith, p, q, u)
        ],
      )

  -- Restoring a job writes, runs and removes its file and returns no error exactly if it has a
  -- specification and the writing and the running succeed.
  pub restore_nomad_job-none_iff :
      (job : NomadJob) (log : List String)
      → (restore_nomad_job server job log
          ≡ (none, job_remove job ∷ job_run job ∷ job_write job ∷ log))
        ↔ ((¬ (job.raw_jobspec ≡ ""))
            × ((server log (job_write job)).err ≡ none)
            × ((server (job_write job ∷ log) (job_run job)).err ≡ none))
  unfolding restore_nomad_job
  restore_nomad_job-none_iff job log = (
    λ h. (λ p. ground (arith, p, eq_iff job.raw_jobspec ""), ground arith, ground arith),
    λ (n, p, q). ground (arith, p, q, n, eq_iff job.raw_jobspec ""),
  )

  job_kept :
      (job : NomadJob) (x : String) (log : List String)
      → Sent log x
      → Sent (restore_nomad_job server job log).1 x
  unfolding restore_nomad_job
  job_kept job x log h = ground arith

  pub jobs_kept :
      (jobs : List NomadJob) (x : String) (log : List String)
      → Sent log x
      → Sent (restore_jobs server jobs log).1 x
  unfolding restore_jobs
  jobs_kept [] x log h = h
  jobs_kept (job ∷ jobs) x log h =
      jobs_kept jobs x (restore_nomad_job server job log).1 (job_kept job x log h)

  job-Sent : (job : NomadJob) (log : List String) → JobSent (restore_nomad_job server job log).1 job
  unfolding restore_nomad_job
  job-Sent job log = elim (Bool-cases (job.raw_jobspec == "")) [
    | inl p ↦ inl ((eq_iff job.raw_jobspec "").0 p)
    | inr p ↦ inr (ground (arith, eq_refl (job_write job)))
  ]

  jobs-Sent :
      (jobs : List NomadJob) (log : List String)
      → All (JobSent (restore_jobs server jobs log).1) jobs
  unfolding restore_jobs
  jobs-Sent [] log = tt
  jobs-Sent (job ∷ jobs) log = (
    elim (job-Sent job log) [
      | inl p ↦ inl p
      | inr p ↦ inr (jobs_kept jobs (job_write job) (restore_nomad_job server job log).1 p)
    ],
    jobs-Sent jobs (restore_nomad_job server job log).1,
  )

  jobs-none : (jobs : List NomadJob) (log : List String) → (restore_jobs server jobs log).0 ≡ none
  unfolding restore_jobs
  jobs-none [] log = refl
  jobs-none (job ∷ jobs) log = jobs-none jobs (restore_nomad_job server job log).1

  -- A restore returns no error and writes the specification of every job that has one, whatever the
  -- server replies.
  pub restore_nomad_state_tries :
      (state : NomadState) (log : List String)
      → let (e, end) = restore_nomad_state server state log in
        (e ≡ none) × All (JobSent end) state.jobs
  unfolding restore_nomad_state
  restore_nomad_state_tries state log = (jobs-none state.jobs log, jobs-Sent state.jobs log)

module _ (answers : String → Reply) (decode_jobs : String → Result (List Fields))
    (decode_job : String → Result Fields) where
  -- A job that the server showed: its text is the whole reply to one `nomad job inspect`, and the
  -- rest is decoded from that text.
  abbrev pub IsShown : NomadJob → Type 0
  IsShown job =
      (id : String) × (fields : Fields) × ((answers (inspect_command id)).err ≡ none)
      × (decode_job (answers (inspect_command id)).out ≡ ok fields)
      × (job ≡ job_of (answers (inspect_command id)).out fields)

  details-IsShown :
      (id : String) (log : List String) (jobs : List NomadJob)
      → All IsShown jobs
      → All IsShown (
          append_job jobs
            (extract_nomad_job_details (fixed answers) decode_jobs decode_job id log).0)
  unfolding extract_nomad_job_details
  details-IsShown id log jobs h = elim (Option-cases (answers (inspect_command id)).err) [
    | inl p ↦ elim (Result-cases (decode_job (answers (inspect_command id)).out)) [
      | inl (fields, q) ↦
          rw (p, append_job, q, job_from)
            (All-append IsShown jobs (job_of (answers (inspect_command id)).out fields ∷ []) h
              ((id, fields, p, q, refl), tt))
      | inr (e, q) ↦ rw (p, append_job, q, job_from) h
    ]
    | inr (e, p) ↦ rw (p, append_job) h
  ]

  loop-IsShown :
      (infos : List Fields) (jobs : List NomadJob) (log : List String)
      → All IsShown jobs
      → All IsShown (job_loop (fixed answers) decode_jobs decode_job infos jobs log).0
  unfolding job_loop
  loop-IsShown [] jobs log h = h
  loop-IsShown (info ∷ infos) jobs log h = elim (Option-cases (as_string (get "ID" info))) [
    | inl p ↦ rw (p, All) (loop-IsShown infos jobs log h)
    | inr (id, p) ↦
        let r = extract_nomad_job_details (fixed answers) decode_jobs decode_job id log in
        rw (p, All) (loop-IsShown infos (append_job jobs r.0) r.1 (details-IsShown id log jobs h))
  ]

  jobs-IsShown :
      (log : List String)
      → All IsShown (found_jobs (extract_nomad_jobs (fixed answers) decode_jobs decode_job log).0)
  unfolding extract_nomad_jobs
  jobs-IsShown log = elim (Option-cases (answers "nomad job list -json 2>/dev/null").err) [
    | inl p ↦ elim (Result-cases (decode_jobs (answers "nomad job list -json 2>/dev/null").out)) [
      | inl (infos, q) ↦
          rw (p, q, found_jobs)
            (loop-IsShown infos [] ("nomad job list -json 2>/dev/null" ∷ log) tt)
      | inr (e, q) ↦ rw (p, q, found_jobs) tt
    ]
    | inr (e, p) ↦ rw (p, found_jobs) tt
  ]

  -- On a server with fixed replies, every job of an extracted state is decoded from the whole reply
  -- to one `nomad job inspect` that succeeded, and keeps that reply as its specification.
  pub extract_nomad_state-IsShown :
      (log : List String)
      → All IsShown (extract_nomad_state (fixed answers) decode_jobs decode_job log).0.jobs
  unfolding extract_nomad_state
  extract_nomad_state-IsShown log =
      let valid = validate_nomad_install (fixed answers) log in
      elim (Option-cases valid.0) [
        | inl p ↦ rw (p, All) (jobs-IsShown valid.1)
        | inr (e, p) ↦ rw (p, All) tt
      ]
