-- ===== src/Extractor/Restore/Verified.antt =====
-- What a restore that returns no error guarantees, and which commands it sends.
use ghost_ship.Base.{
  String, ◌≡◌, refl, ◌≢◌, ◌⊎◌, inl, inr, Bool, true, false, Error, Result, none, List, ◌∷◌, count,
  arith, eqb, Bool-cases, Result-cases, ap, ◌∙◌, sym, eq_refl,
}
use ghost_ship.Ssh.{Server}
use ghost_ship.Extractor.Restore.{
  RemoteFileInfo, sha_command, stat_command, parent_command, tee_command, inspect_remote_file,
  agrees, up_to_date, verify_remote_file, write_remote_file, restore_bytes_if_changed,
  ensure_remote_parent_dir,
}
use ghost_ship.Extractor.Restore.Inspect.{Reports, inspect_ok, inspect-Reports, Reports-of_agrees}

module _ (server : Server) (sha256_hex base64 : String → String) (path content : String)
    (use_sudo : Bool) where
  -- The two commands of an inspection.
  abbrev pub inspected : List String → List String
  inspected log = stat_command use_sudo path ∷ sha_command use_sudo path ∷ log

  -- The commands up to the second inspection, where the file is written.
  abbrev pub written : List String → List String
  written log =
      tee_command use_sudo (base64 content) path
      ∷ parent_command use_sudo path
      ∷ (inspect_remote_file server path use_sudo log).1

  verify_ok :
      (log : List String)
      → (verify_remote_file server sha256_hex base64 path content use_sudo log).0 ≡ none
      → Reports server path use_sudo (sha256_hex content) content log
        × ((verify_remote_file server sha256_hex base64 path content use_sudo log).1
            ≡ inspected log)
  unfolding verify_remote_file
  verify_ok log h = elim (Result-cases (inspect_remote_file server path use_sudo log).0) [
    | inr (e, p) ↦ absurd (ground arith)
    | inl (info, p) ↦ elim (Bool-cases (agrees (sha256_hex content) content info)) [
      | inr q ↦ absurd (ground arith)
      | inl q ↦ (
        Reports-of_agrees server path use_sudo log (sha256_hex content) content info p q,
        ground (arith, inspect_ok server path use_sudo log info p),
      )
    ]
  ]

  pub verify-Reports :
      (log : List String)
      → Reports server path use_sudo (sha256_hex content) content log
      → verify_remote_file server sha256_hex base64 path content use_sudo log
        ≡ (none, inspected log)
  unfolding verify_remote_file
  verify-Reports log r = ground (
    arith,
    inspect-Reports server path use_sudo log (sha256_hex content) content r,
    eq_refl (sha256_hex content),
  )

  -- How a restore ended well: at `before` the server reported the hash and the length of the
  -- content, and these two questions were the last commands. Either they were the only ones, or the
  -- file was written once, right before them.
  pub record Restored (log end : List String) : Type 0 where
    pub before : List String
    pub reported : Reports server path use_sudo (sha256_hex content) content before
    pub log_end : end ≡ inspected before
    pub one_write : (before ≡ log) ⊎ (before ≡ written log)

  write_ok :
      (log : List String)
      → (write_remote_file server sha256_hex base64 path content use_sudo
          (inspect_remote_file server path use_sudo log).1).0
        ≡ none
      → Restored log
          (write_remote_file server sha256_hex base64 path content use_sudo
            (inspect_remote_file server path use_sudo log).1).1
  unfolding write_remote_file ensure_remote_parent_dir
  write_ok log h =
      let v = verify_ok (written log) (ground arith) in
      record {
        before = written log;
        reported = v.0;
        log_end = ground (arith, v.1);
        one_write = inr refl;
      }

  skip_ok :
      (log : List String)
      → up_to_date (sha256_hex content) content (inspect_remote_file server path use_sudo log).0
        ≡ true
      → Restored log (inspect_remote_file server path use_sudo log).1
  skip_ok log h = elim (Result-cases (inspect_remote_file server path use_sudo log).0) [
    | inr (e, p) ↦ absurd (ground arith)
    | inl (info, p) ↦ record {
      before = log;
      reported =
          Reports-of_agrees server path use_sudo log (sha256_hex content) content info p
            (ground arith);
      log_end = (inspect_ok server path use_sudo log info p).2;
      one_write = inl refl;
    }
  ]

  -- The two ways of a restore that has something to send.
  pub restore_current :
      (log : List String)
      → count content ≢ 0
      → up_to_date (sha256_hex content) content (inspect_remote_file server path use_sudo log).0
        ≡ true
      → restore_bytes_if_changed server sha256_hex base64 path content use_sudo log
        ≡ (none, (inspect_remote_file server path use_sudo log).1)
  unfolding restore_bytes_if_changed
  restore_current log some_bytes same =
      let filled : eqb (count content) 0 ≡ false = ground arith in rw (filled, same) refl

  pub restore_other :
      (log : List String)
      → count content ≢ 0
      → up_to_date (sha256_hex content) content (inspect_remote_file server path use_sudo log).0
        ≡ false
      → restore_bytes_if_changed server sha256_hex base64 path content use_sudo log
        ≡ write_remote_file server sha256_hex base64 path content use_sudo
            (inspect_remote_file server path use_sudo log).1
  unfolding restore_bytes_if_changed
  restore_other log some_bytes differs =
      let filled : eqb (count content) 0 ≡ false = ground arith in rw (filled, differs) refl

  -- A restore of some content that returns no error ends with the server reporting the hash and
  -- the length of that content, and has written at most once.
  pub restore_bytes_if_changed_ok :
      (log : List String)
      → count content ≢ 0
      → (restore_bytes_if_changed server sha256_hex base64 path content use_sudo log).0 ≡ none
      → Restored log (restore_bytes_if_changed server sha256_hex base64 path content use_sudo log).1
  restore_bytes_if_changed_ok log some_bytes h =
      elim (Bool-cases (
        up_to_date (sha256_hex content) content (inspect_remote_file server path use_sudo log).0)) [
          | inl same ↦ rw (restore_current log some_bytes same) (skip_ok log same)
          | inr differs ↦
              let e = restore_other log some_bytes differs in
              rw e (write_ok log (sym (ap (λ (r : Error × List String). r.0) e) ∙ h))
        ]

  -- Content that is not empty and whose hash and length the server reports is not sent: the restore
  -- asks two questions and is done.
  pub restore_bytes_if_changed_reported :
      (log : List String)
      → count content ≢ 0
      → Reports server path use_sudo (sha256_hex content) content log
      → restore_bytes_if_changed server sha256_hex base64 path content use_sudo log
        ≡ (none, inspected log)
  restore_bytes_if_changed_reported log some_bytes r =
      let i = inspect-Reports server path use_sudo log (sha256_hex content) content r in
      restore_current log some_bytes (ground (arith, i, eq_refl (sha256_hex content)))
      ∙ ap (λ (q : Result RemoteFileInfo × List String). (none, q.1)) i
