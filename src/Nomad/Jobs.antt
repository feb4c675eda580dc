-- ===== src/Nomad/Jobs.antt =====
-- internal/nomad/nomad.go: the jobs of a Nomad server. Decoding JSON is a parameter: of the job list
-- into its maps, and of one job into its map. `null` decodes into a map without keys.
pub mod Laws
use ghost_ship.Base.{
  String, ◌<>◌, Bool, ◌&&◌, Error, Result, ok, err, Option, none, some, List, [], ◌∷◌, ◌++◌, ◌==◌,
  if◌then◌else◌,
}
use ghost_ship.Base.Dict.{Dict}
use ghost_ship.Ssh.{Reply, Server, Ssh, pure, run, ◌>>=◌, ◌>>◌}
use ghost_ship.Nomad.Json.{
  Fields, end, get, as_string, as_object, as_array, texts_of, text_fields, objects_of, or_default,
}

pub record NomadJob : Type 0 where
  pub id : String
  pub name : String
  pub type : String
  pub datacenters : List String
  pub status : String
  pub task_groups : List Fields
  pub meta : Dict String
  pub raw_jobspec : String

pub record NomadState : Type 0 where
  pub jobs : List NomadJob
  pub nodes : List String
  pub allocations : Fields

abbrev pub state_of : List NomadJob → NomadState
state_of jobs = record { jobs = jobs; nodes = []; allocations = end }

-- The fields of a decoded job, beside the text that it was decoded from.
unfoldable pub job_of : String → Fields → NomadJob
job_of raw fields = record {
  id = or_default "" (as_string (get "ID" fields));
  name = or_default "" (as_string (get "Name" fields));
  type = or_default "" (as_string (get "Type" fields));
  datacenters = elim (as_array (get "Datacenters" fields)) [ none ↦ [] | some xs ↦ texts_of xs ];
  status = or_default "" (as_string (get "Status" fields));
  task_groups = elim (as_array (get "TaskGroups" fields)) [ none ↦ [] | some xs ↦ objects_of xs ];
  meta = elim (as_object (get "Meta" fields)) [ none ↦ [] | some fs ↦ text_fields fs ];
  raw_jobspec = raw;
}

abbrev pub inspect_command : String → String
inspect_command id = "nomad job inspect " <> id <> " -json 2>/dev/null"

abbrev pub job_file : NomadJob → String
job_file job = "/tmp/" <> job.id <> ".nomad.json"

abbrev pub job_write : NomadJob → String
job_write job = "cat > " <> job_file job <> " << 'EOF'\n" <> job.raw_jobspec <> "\nEOF"

abbrev pub job_run : NomadJob → String
job_run job = "nomad job run " <> job_file job <> " 2>&1"

abbrev pub job_remove : NomadJob → String
job_remove job = "rm -f " <> job_file job

-- A job whose details cannot be had is left out.
abbrev pub append_job : List NomadJob → Result NomadJob → List NomadJob
append_job jobs (ok job) = jobs ++ job ∷ []
append_job jobs (err e) = jobs

-- What a new state has where a step fails.
abbrev pub found_jobs : Result (List NomadJob) → List NomadJob
found_jobs (ok jobs) = jobs
found_jobs (err e) = []

abbrev pub job_from : String → Result Fields → Result NomadJob
job_from raw (ok fields) = ok (job_of raw fields)
job_from raw (err e) = err e

module _ (server : Server) where
  -- The errors of the two last commands are dropped.
  unfoldable pub validate_nomad_install : Ssh Error
  validate_nomad_install = do
    found ← run server "which nomad"
    elim found.err [
      | some _ ↦ pure (some "nomad not installed")
      | none ↦ do
        version ← run server "nomad version"
        elim version.err [
          | some _ ↦ pure (some "nomad not responding")
          | none ↦ do
            docker ← run server "docker --version"
            containerd ← run server "which containerd"
            if docker.out == "" && containerd.out == ""
                then pure (
                    some
                      ("neither docker nor containerd found - nomad requires a container runtime"))
                else pure none
        ]
    ]

  unfoldable pub restore_nomad_job : NomadJob → Ssh Error
  restore_nomad_job job =
      if job.raw_jobspec == "" then pure (some "no job specification available") else do
        written ← run server (job_write job)
        elim written.err [
          | some e ↦ pure (some ("failed to write job spec: " <> e))
          | none ↦ do
            started ← run server (job_run job)
            elim started.err [
              | some e ↦ pure (some ("nomad job run failed: " <> started.out <> " - " <> e))
              | none ↦ run server (job_remove job) >> pure none
            ]
        ]

  unfoldable pub restore_jobs : List NomadJob → Ssh Error
  restore_jobs [] log = (none, log)
  restore_jobs (job ∷ jobs) log =
      let (_, log') = restore_nomad_job job log in restore_jobs jobs log'

  unfoldable pub restore_nomad_state : NomadState → Ssh Error
  unfolding restore_jobs
  restore_nomad_state state = restore_jobs state.jobs

module _ (server : Server) (decode_jobs : String → Result (List Fields))
    (decode_job : String → Result Fields) where
  unfoldable pub extract_nomad_job_details : String → Ssh (Result NomadJob)
  extract_nomad_job_details id = do
    r ← run server (inspect_command id)
    elim r.err [ some e ↦ pure (err e) | none ↦ pure (job_from r.out (decode_job r.out)) ]

  unfoldable pub job_loop : List Fields → List NomadJob → Ssh (List NomadJob)
  job_loop [] jobs log = (jobs, log)
  job_loop (info ∷ infos) jobs log =
      let skipped = job_loop infos jobs log in
      let listed = λ (id : String).
        let (job, log') = extract_nomad_job_details id log in
        job_loop infos (append_job jobs job) log' in
      elim (as_string (get "ID" info)) [ none ↦ skipped | some id ↦ listed id ]

  unfoldable pub extract_nomad_jobs : Ssh (Result (List NomadJob))
  unfolding job_loop
  extract_nomad_jobs = do
    r ← run server "nomad job list -json 2>/dev/null"
    elim r.err [
      | some e ↦ pure (err ("nomad job list failed: " <> e))
      | none ↦ elim (decode_jobs r.out) [
        | err e ↦ pure (err ("failed to parse job list: " <> e))
        | ok infos ↦ do jobs ← job_loop infos []; pure (ok jobs)
      ]
    ]

  unfoldable pub extract_nomad_state : Ssh NomadState
  extract_nomad_state = do
    missing ← validate_nomad_install server
    elim missing [
      | some _ ↦ pure (state_of [])
      | none ↦ do jobs ← extract_nomad_jobs; pure (state_of (found_jobs jobs))
    ]

  unfoldable pub get_nomad_allocations : String → Ssh (Result Fields)
  get_nomad_allocations id = do
    r ← run server ("nomad job allocations " <> id <> " -json 2>/dev/null")
    elim r.err [
      | some e ↦ pure (err ("failed to get allocations: " <> e))
      | none ↦ pure (decode_job r.out)
    ]
