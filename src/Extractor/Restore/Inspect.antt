-- ===== src/Extractor/Restore/Inspect.antt =====
-- What an inspection of a remote file tells.
use ghost_ship.Base.{
  String, ◌≡◌, inl, inr, Bool, true, ok, List, ◌∷◌, count, arith, eq_iff, Result-cases, ap, ◌∙◌,
}
use ghost_ship.Base.Int.{ℤ, pos, eqb_ℤ}
use ghost_ship.Ssh.{Server}
use ghost_ship.Extractor.Restore.{
  RemoteFileInfo, sha_command, stat_command, sha_of, size_of, inspect_remote_file, agrees,
}

-- The server reports a file with this hash and this length: what `sha256sum` and `stat` answer
-- after the commands of `log`.
pub record Reports (server : Server) (path : String) (use_sudo : Bool) (sha content : String)
    (log : List String) : Type 0 where
  pub sha_shown : sha_of path (server log (sha_command use_sudo path)) ≡ ok sha
  pub size_shown :
      size_of path (server (sha_command use_sudo path ∷ log) (stat_command use_sudo path))
      ≡ ok (pos (count content))

eqb_ℤ_eq : (a b : ℤ) → eqb_ℤ a b ≡ true → a ≡ b
eqb_ℤ_eq a b h = ground arith

module _ (server : Server) (path : String) (use_sudo : Bool) where
  -- An inspection that succeeds has sent two commands, and says what they showed.
  pub inspect_ok :
      (log : List String) (info : RemoteFileInfo)
      → (inspect_remote_file server path use_sudo log).0 ≡ ok info
      → (sha_of path (server log (sha_command use_sudo path)) ≡ ok info.sha256)
        × (size_of path (server (sha_command use_sudo path ∷ log) (stat_command use_sudo path))
            ≡ ok info.size)
        × ((inspect_remote_file server path use_sudo log).1
            ≡ stat_command use_sudo path ∷ sha_command use_sudo path ∷ log)
  unfolding inspect_remote_file
  inspect_ok log info h =
      elim (Result-cases (sha_of path (server log (sha_command use_sudo path)))) [
        | inr (e, p) ↦ absurd (ground arith)
        | inl (sha, p) ↦
            elim (Result-cases (
              size_of path
                (server (sha_command use_sudo path ∷ log) (stat_command use_sudo path)))) [
                  | inr (e, q) ↦ absurd (ground arith)
                  | inl (n, q) ↦ (ground arith, ground arith, ground arith)
                ]
      ]

  pub inspect-Reports :
      (log : List String) (sha content : String)
      → Reports server path use_sudo sha content log
      → inspect_remote_file server path use_sudo log ≡ (
        ok (record { sha256 = sha; size = pos (count content) }),
        stat_command use_sudo path ∷ sha_command use_sudo path ∷ log,
      )
  unfolding inspect_remote_file
  inspect-Reports log sha content r = ground (arith, r.sha_shown, r.size_shown)

  pub Reports-of_agrees :
      (log : List String) (sha content : String) (info : RemoteFileInfo)
      → (inspect_remote_file server path use_sudo log).0 ≡ ok info
      → agrees sha content info ≡ true
      → Reports server path use_sudo sha content log
  Reports-of_agrees log sha content info h a =
      let (shown, sized, _) = inspect_ok log info h in
      record {
        sha_shown = shown ∙ ap ok ((eq_iff info.sha256 sha).0 (ground arith));
        size_shown = sized ∙ ap ok (eqb_ℤ_eq info.size (pos (count content)) (ground arith));
      }
