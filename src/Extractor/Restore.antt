-- ===== src/Extractor/Restore.antt =====
-- internal/extractor/restore.go: a file is sent only if the server has another one, and is checked
-- after it was sent. SHA-256 in hexadecimal and the standard base64 encoding are parameters.
pub mod Inspect
pub mod Verified
pub mod File
pub mod Frame
pub mod Printed
use ghost_ship.Base.{
  String, ◌<>◌, Bool, true, false, Error, Result, ok, err, Option, none, some, List, [], ◌∷◌, ◌&&◌,
  not, count, ◌==◌, eqb, if◌then◌else◌,
}
use ghost_ship.Base.Text.{trim_space, fields, quote}
use ghost_ship.Base.Int.{ℤ, pos, eqb_ℤ}
use ghost_ship.Base.Decimal.{atoi, format_nat, format_int}
use ghost_ship.Base.FilePath.{dir}
use ghost_ship.Ssh.{Reply, Server, Ssh, pure, run, try, ◌>>=◌, ◌>>◌, ◌&>◌}

pub record RemoteFileInfo : Type 0 where
  pub sha256 : String
  pub size : ℤ

abbrev pub sudo : Bool → String
sudo use_sudo = if use_sudo then "sudo " else ""

abbrev pub sha_command : Bool → String → String
sha_command use_sudo path = sudo use_sudo <> "sha256sum " <> path <> " 2>/dev/null"

abbrev pub stat_command : Bool → String → String
stat_command use_sudo path =
    sudo use_sudo
    <> "stat -c %s "
    <> path
    <> " 2>/dev/null || "
    <> sudo use_sudo
    <> "stat -f %z "
    <> path
    <> " 2>/dev/null"

abbrev pub parent_command : Bool → String → String
parent_command use_sudo path = sudo use_sudo <> "mkdir -p " <> dir path

abbrev pub tee_command : Bool → String → String → String
tee_command use_sudo encoded path =
    "echo '" <> encoded <> "' | base64 -d | " <> sudo use_sudo <> "tee " <> path <> " > /dev/null"

-- The first field of the output of `sha256sum`.
unfoldable pub sha_of : String → Reply → Result String
sha_of path r = elim r.err [
  | some _ ↦ err ("remote file not accessible: " <> path)
  | none ↦
      if trim_space r.out == ""
      then err ("remote file not accessible: " <> path)
      else elim (fields (trim_space r.out)) [
        | [] ↦ err ("unexpected sha256sum output for " <> path)
        | sha ∷ _ ↦ ok sha
      ]
]

-- The number that `stat` prints.
unfoldable pub size_of : String → Reply → Result ℤ
size_of path r = elim r.err [
  | some _ ↦ err ("remote file size not accessible: " <> path)
  | none ↦
      if trim_space r.out == ""
      then err ("remote file size not accessible: " <> path)
      else elim (atoi (trim_space r.out)) [
        | err e ↦ err ("invalid remote file size for " <> path <> ": " <> e)
        | ok n ↦ ok n
      ]
]

module _ (server : Server) where
  unfoldable pub inspect_remote_file : String → Bool → Ssh (Result RemoteFileInfo)
  inspect_remote_file path use_sudo = do
    shown ← run server (sha_command use_sudo path)
    elim (sha_of path shown) [
      | err e ↦ pure (err e)
      | ok sha ↦ do
        stat ← run server (stat_command use_sudo path)
        elim (size_of path stat) [
          | err e ↦ pure (err e)
          | ok size ↦ pure (ok (record { sha256 = sha; size = size }))
        ]
    ]

  unfoldable pub ensure_remote_parent_dir : String → Bool → Ssh Error
  ensure_remote_parent_dir path use_sudo =
      try server ("failed to create parent directory for " <> path <> ": ")
        (parent_command use_sudo path)

-- The file that the server has is the one that `sha` and the length describe.
abbrev pub agrees : String → String → RemoteFileInfo → Bool
agrees sha content info = (info.sha256 == sha) && eqb_ℤ info.size (pos (count content))

abbrev pub up_to_date : String → String → Result RemoteFileInfo → Bool
up_to_date sha content (err e) = false
up_to_date sha content (ok info) = agrees sha content info

module _ (server : Server) (sha256_hex base64 : String → String) where
  -- The second inspection, after the write.
  unfoldable pub verify_remote_file : String → String → Bool → Ssh Error
  verify_remote_file path content use_sudo = do
    verified ← inspect_remote_file server path use_sudo
    elim verified [
      | err e ↦ pure (some ("failed to verify " <> path <> " after restore: " <> e))
      | ok info ↦
          if agrees (sha256_hex content) content info
          then pure none
          else pure (
              some (
                "checksum mismatch for "
                <> path
                <> " after restore: want "
                <> sha256_hex content
                <> "/"
                <> format_nat (count content)
                <> " got "
                <> info.sha256
                <> "/"
                <> format_int info.size))
    ]

  unfoldable pub write_remote_file : String → String → Bool → Ssh Error
  unfolding verify_remote_file
  write_remote_file path content use_sudo =
      ensure_remote_parent_dir server path use_sudo
      &> try server ("failed to write " <> path <> ": ")
          (tee_command use_sudo (base64 content) path)
      &> verify_remote_file path content use_sudo

  unfoldable pub restore_bytes_if_changed : String → String → Bool → Ssh Error
  unfolding write_remote_file
  restore_bytes_if_changed path content use_sudo = if eqb (count content) 0 then pure none else do
    current ← inspect_remote_file server path use_sudo
    if up_to_date (sha256_hex content) content current
        then pure none
        else write_remote_file path content use_sudo
