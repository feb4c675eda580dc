-- ===== src/Extractor/Restore/File.antt =====
-- Restoring against a server that keeps the file: the result is the file's content.
use ghost_ship.Base.{
  String, ◌≡◌, ◌≢◌, inl, inr, Bool, Error, ok, err, Option, none, some, List, ◌∷◌, count, arith,
  Bool-cases, Option-cases, ap, ◌∙◌,
}
use ghost_ship.Base.Int.{pos}
use ghost_ship.Ssh.{Server}
use ghost_ship.Extractor.Restore.{
  sha_command, stat_command, parent_command, tee_command, sha_of, size_of, inspect_remote_file,
  up_to_date, write_remote_file, restore_bytes_if_changed, ensure_remote_parent_dir,
}
use ghost_ship.Extractor.Restore.Inspect.{Reports}
use ghost_ship.Extractor.Restore.Verified.{
  inspected, written, restore_bytes_if_changed_ok, restore_bytes_if_changed_reported,
  verify-Reports, restore_current, restore_other,
}

-- A server that keeps one file: its content after the commands so far, where there is one.
-- `sha256sum` and `stat` show its hash and its length and leave it alone, and they fail on a file
-- that is missing; `mkdir -p` leaves it alone.
pub record HoldsFile (server : Server) (sha256_hex : String → String) (path : String)
    (use_sudo : Bool) : Type 0 where
  pub file : List String → Option String
  pub sha_found :
      (log : List String) (c : String)
      → file log ≡ some c
      → sha_of path (server log (sha_command use_sudo path)) ≡ ok (sha256_hex c)
  pub sha_missing :
      (log : List String)
      → file log ≡ none
      → (e : String) × (sha_of path (server log (sha_command use_sudo path)) ≡ err e)
  pub size_found :
      (log : List String) (c : String)
      → file log ≡ some c
      → size_of path (server log (stat_command use_sudo path)) ≡ ok (pos (count c))
  pub after_sha : (log : List String) → file (sha_command use_sudo path ∷ log) ≡ file log
  pub after_stat : (log : List String) → file (stat_command use_sudo path ∷ log) ≡ file log
  pub after_parent : (log : List String) → file (parent_command use_sudo path ∷ log) ≡ file log

-- A server on which the directory can be made and the file be written.
pub record IsWritable (server : Server) (sha256_hex base64 : String → String)
    (path content : String) (use_sudo : Bool) (H : HoldsFile server sha256_hex path use_sudo)
    : Type 0 where
  pub parent_made : (log : List String) → (server log (parent_command use_sudo path)).err ≡ none
  pub tee_done :
      (log : List String) → (server log (tee_command use_sudo (base64 content) path)).err ≡ none
  pub after_tee :
      (log : List String) → H.file (tee_command use_sudo (base64 content) path ∷ log) ≡ some content

module _ (server : Server) (sha256_hex base64 : String → String) (path content : String)
    (use_sudo : Bool) (H : HoldsFile server sha256_hex path use_sudo) where
  after_inspection :
      (log : List String)
      → H.file (inspected server sha256_hex base64 path content use_sudo log) ≡ H.file log
  after_inspection log = H.after_stat (sha_command use_sudo path ∷ log) ∙ H.after_sha log

  -- What a server reports is the hash and the length of the file that it keeps.
  reported_file :
      (log : List String)
      → Reports server path use_sudo (sha256_hex content) content log
      → (c : String) × (H.file log ≡ some c)
        × (sha256_hex c ≡ sha256_hex content)
        × (count c ≡ count content)
  reported_file log r = elim (Option-cases (H.file log)) [
    | inl p ↦ absurd (let (e, q) = H.sha_missing log p in ground (arith, q, r.sha_shown))
    | inr (c, p) ↦ (
      c,
      p,
      ground (arith, H.sha_found log c p, r.sha_shown),
      ground (
        arith,
        H.size_found (sha_command use_sudo path ∷ log) c (H.after_sha log ∙ p),
        r.size_shown,
      ),
    )
  ]

  pub Reports-of_file :
      (log : List String)
      → H.file log ≡ some content
      → Reports server path use_sudo (sha256_hex content) content log
  Reports-of_file log p = record {
    sha_shown = H.sha_found log content p;
    size_shown = H.size_found (sha_command use_sudo path ∷ log) content (H.after_sha log ∙ p);
  }

  -- On a server that keeps the file, if no other text of its length has the hash of the content, a
  -- restore of content that is not empty and that returns no error leaves the file with the content.
  pub restore_bytes_if_changed_sets :
      (log : List String)
      → ((c : String) → sha256_hex c ≡ sha256_hex content → count c ≡ count content → c ≡ content)
      → count content ≢ 0
      → (restore_bytes_if_changed server sha256_hex base64 path content use_sudo log).0 ≡ none
      → H.file (restore_bytes_if_changed server sha256_hex base64 path content use_sudo log).1
        ≡ some content
  restore_bytes_if_changed_sets log unique some_bytes h =
      let r =
        restore_bytes_if_changed_ok server sha256_hex base64 path content use_sudo log some_bytes
          h in
      let (c, kept, same, long) = reported_file r.before r.reported in
      ap H.file r.log_end ∙ after_inspection r.before ∙ kept ∙ ap some (unique c same long)

  restore_succeeds :
      IsWritable server sha256_hex base64 path content use_sudo H
      → (log : List String) → count content ≢ 0
      → (restore_bytes_if_changed server sha256_hex base64 path content use_sudo log).0 ≡ none
  unfolding write_remote_file ensure_remote_parent_dir
  restore_succeeds w log some_bytes =
      elim (Bool-cases (
        up_to_date (sha256_hex content) content (inspect_remote_file server path use_sudo log).0)) [
          | inl same ↦
              ap (λ (r : Error × List String). r.0)
                (restore_current server sha256_hex base64 path content use_sudo log some_bytes same)
          | inr differs ↦
              let asked : List String = (inspect_remote_file server path use_sudo log).1 in
              let end : List String = written server sha256_hex base64 path content use_sudo log in
              let made = w.after_tee (parent_command use_sudo path ∷ asked) in
              ap (λ (r : Error × List String). r.0)
                (restore_other server sha256_hex base64 path content use_sudo log some_bytes
                  differs)
              ∙ ground (
                arith,
                w.parent_made asked,
                w.tee_done (parent_command use_sudo path ∷ asked),
                verify-Reports server sha256_hex base64 path content use_sudo end
                    (Reports-of_file end made),
              )
        ]

  -- On a server that keeps the file and lets it be written, if no other text of its length has the
  -- hash of the content, a restore of content that is not empty returns no error and the file has
  -- the content, whatever it held before; a second restore then asks two questions and writes
  -- nothing.
  pub restore_bytes_if_changed_succeeds :
      IsWritable server sha256_hex base64 path content use_sudo H
      → (log : List String)
      → ((c : String) → sha256_hex c ≡ sha256_hex content → count c ≡ count content → c ≡ content)
      → count content ≢ 0
      → let (e, end) =
          restore_bytes_if_changed server sha256_hex base64 path content use_sudo log in
        (e ≡ none)
        × (H.file end ≡ some content)
        × (restore_bytes_if_changed server sha256_hex base64 path content use_sudo end
            ≡ (none, inspected server sha256_hex base64 path content use_sudo end))
  restore_bytes_if_changed_succeeds w log unique some_bytes =
      let done = restore_succeeds w log some_bytes in
      let set = restore_bytes_if_changed_sets log unique some_bytes done in
      let end : List String =
        (restore_bytes_if_changed server sha256_hex base64 path content use_sudo log).1 in
      (
        done,
        set,
        restore_bytes_if_changed_reported server sha256_hex base64 path content use_sudo end
            some_bytes (Reports-of_file end set),
      )
