-- ===== src/Extractor/Restore/Frame.antt =====
-- A restore sends four kinds of commands, so what these keep it keeps.
use ghost_ship.Base.{
  String, ◌<>◌, ◌≡◌, refl, ◌≢◌, inl, inr, Bool, Error, none, List, ◌∷◌, count, eqb, arith,
  Bool-cases, Option-cases, Result-cases, if◌then◌else◌,
}
use ghost_ship.Ssh.{Server, Ssh, try, ◌&>◌, ◌>>=◌}
use ghost_ship.Extractor.Restore.{
  sha_command, stat_command, parent_command, tee_command, sha_of, size_of, agrees, up_to_date,
  inspect_remote_file, ensure_remote_parent_dir, verify_remote_file, write_remote_file,
  restore_bytes_if_changed,
}
use ghost_ship.Extractor.Restore.Verified.{restore_current, restore_other}

-- A property of the log that the four commands of a restore keep.
pub record IsKept (base64 : String → String) (path content : String) (use_sudo : Bool)
    (P : List String → Type 0) : Type 0 where
  pub by_sha : (log : List String) → P log → P (sha_command use_sudo path ∷ log)
  pub by_stat : (log : List String) → P log → P (stat_command use_sudo path ∷ log)
  pub by_parent : (log : List String) → P log → P (parent_command use_sudo path ∷ log)
  pub by_tee : (log : List String) → P log → P (tee_command use_sudo (base64 content) path ∷ log)

-- An early return keeps what both steps keep.
seq_keeps :
    (P : List String → Type 0) (m k : Ssh Error) (log : List String)
    → P (m log).1
    → ((log' : List String) → P log' → P (k log').1)
    → P ((m &> k) log).1
seq_keeps P m k log h f = elim (Option-cases (m log).0) [
  | inl p ↦ rw (◌&>◌, p) (f (m log).1 h)
  | inr (e, p) ↦ rw (◌&>◌, p) h
]

module _ (server : Server) (sha256_hex base64 : String → String) (path content : String)
    (use_sudo : Bool) (P : List String → Type 0) (K : IsKept base64 path content use_sudo P) where
  pub inspect_keeps :
      (log : List String) → P log → P (inspect_remote_file server path use_sudo log).1
  unfolding inspect_remote_file sha_of
  inspect_keeps log h =
      let asked : List String = sha_command use_sudo path ∷ log in
      let kept = K.by_stat asked (K.by_sha log h) in
      elim (Result-cases (sha_of path (server log (sha_command use_sudo path)))) [
        | inr (e, p) ↦ rw p (K.by_sha log h)
        | inl (sha, p) ↦
            elim (Result-cases (size_of path (server asked (stat_command use_sudo path)))) [
              | inr (e, q) ↦ rw (p, ◌>>=◌, q) kept
              | inl (n, q) ↦ rw (p, ◌>>=◌, q) kept
            ]
      ]

  verify_keeps :
      (log : List String)
      → P log
      → P (verify_remote_file server sha256_hex base64 path content use_sudo log).1
  unfolding verify_remote_file inspect_remote_file sha_of
  verify_keeps log h =
      let kept = inspect_keeps log h in
      elim (Result-cases (inspect_remote_file server path use_sudo log).0) [
        | inr (e, p) ↦ rw p kept
        | inl (info, p) ↦ elim (Bool-cases (agrees (sha256_hex content) content info)) [
          | inl q ↦ rw (p, q, if◌then◌else◌) kept
          | inr q ↦ rw (p, q, if◌then◌else◌) kept
        ]
      ]

  write_keeps :
      (log : List String)
      → P log
      → P (write_remote_file server sha256_hex base64 path content use_sudo log).1
  unfolding write_remote_file ensure_remote_parent_dir
  write_keeps log h =
      let tee = tee_command use_sudo (base64 content) path in
      let send = try server ("failed to write " <> path <> ": ") tee in
      let verify = verify_remote_file server sha256_hex base64 path content use_sudo in
      seq_keeps P (ensure_remote_parent_dir server path use_sudo) (send &> verify) log
        (K.by_parent log h) (λ log' p. seq_keeps P send verify log' (K.by_tee log' p) verify_keeps)

  pub restore_empty :
      (log : List String)
      → count content ≡ 0
      → restore_bytes_if_changed server sha256_hex base64 path content use_sudo log ≡ (none, log)
  unfolding restore_bytes_if_changed
  restore_empty log h = rw h refl

  -- What holds after the inspection that a restore starts with holds after the restore.
  pub after_inspection :
      (log : List String)
      → count content ≢ 0
      → P (inspect_remote_file server path use_sudo log).1
      → P (restore_bytes_if_changed server sha256_hex base64 path content use_sudo log).1
  after_inspection log some_bytes h =
      elim (Bool-cases (
        up_to_date (sha256_hex content) content (inspect_remote_file server path use_sudo log).0)) [
          | inl p ↦
              rw (restore_current server sha256_hex base64 path content use_sudo log some_bytes p) h
          | inr p ↦
              rw (restore_other server sha256_hex base64 path content use_sudo log some_bytes p)
                (write_keeps (inspect_remote_file server path use_sudo log).1 h)
        ]

  pub restore_keeps :
      (log : List String)
      → P log
      → P (restore_bytes_if_changed server sha256_hex base64 path content use_sudo log).1
  restore_keeps log h = elim (Bool-cases (eqb (count content) 0)) [
    | inl p ↦ rw (restore_empty log (ground arith)) h
    | inr p ↦ after_inspection log (ground arith) (inspect_keeps log h)
  ]
