-- ===== src/Tests/Placing.antt =====
-- Restoring the files of a state on a server that keeps two files.
use ghost_ship.Base.{
  String, ◌<>◌, ◌≡◌, refl, inl, inr, true, Option, none, some, List, [], ◌∷◌, arith, ◌==◌,
  if◌then◌else◌, Bool-cases, All, ok,
}
use ghost_ship.Base.Int.{pos}
use ghost_ship.Base.Text.{trim_space, fields, split, is_space}
use ghost_ship.Base.Decimal.{atoi}
use ghost_ship.Base.FilePath.{dir}
use ghost_ship.Ssh.{Reply, Server}
use ghost_ship.Nomad.Json.{end}
use ghost_ship.Extractor.Certs.{certificate_restore_path}
use ghost_ship.Extractor.Restore.{
  sha_command, stat_command, tee_command, sha_of, size_of, inspect_remote_file,
}
use ghost_ship.Extractor.Restore.Printed.{
  PrintsFile, sha_reply, size_reply, inspect_remote_file-printed,
}
use ghost_ship.Extractor.State.{SystemState}
use ghost_ship.Extractor.State.Files.{HoldsFiles, IsRestorable, KeepsFile, LeavesAlone, files_of}

abbrev pub database : String
database = "/opt/3x-ui/db/x-ui.db"

abbrev pub certificate : String
certificate = "/etc/letsencrypt/live/ru/cert.pem"

-- The text itself stands for its hash.
abbrev pub hash : String → String
hash s = s

abbrev pub encode : String → String
encode s = "<" <> s <> ">"

abbrev pub write_database : String
write_database = tee_command true (encode "SQLite") database

abbrev pub write_certificate : String
write_certificate = tee_command true (encode "pem") certificate

-- One file after some commands, of which one writes it.
unfoldable pub written : String → String → List String → Option String
written cmd content [] = none
written cmd content (c ∷ log) = if c == cmd then some content else written cmd content log

abbrev pub file : List String → String → Option String
file log path =
    if path == database
    then written write_database "SQLite" log
    else if path == certificate
    then written write_certificate "pem" log
    else none

written-content :
    (cmd content : String) (log : List String) (c : String)
    → written cmd content log ≡ some c
    → c ≡ content
unfolding written
written-content cmd content [] c h = cc
written-content cmd content (x ∷ log) c h = elim (Bool-cases (x == cmd)) [
  | inl p ↦ ground arith
  | inr p ↦ written-content cmd content log c (ground arith)
]

abbrev done : String → Reply
done out = record { out = out; err = none }

abbrev shown : Option String → String → Reply
shown none out = record { out = ""; err = some "exit status 1" }
shown (some c) out = record { out = out; err = none }

unfoldable pub host : Server
unfolding written
host log cmd =
    if cmd == sha_command true database
    then shown (file log database) "SQLite  x-ui.db\n"
    else if cmd == stat_command true database
    then shown (file log database) "6\n"
    else if cmd == sha_command true certificate
    then shown (file log certificate) "pem  cert.pem\n"
    else if cmd == stat_command true certificate
    then shown (file log certificate) "3\n"
    else done ""

pub database-KeepsFile : KeepsFile host hash encode file database "SQLite"
unfolding host written sha_of size_of trim_space fields atoi dir
database-KeepsFile = record {
  holds = record {
    file = λ log. file log database;
    sha_found = λ log c p. rw (p, written-content write_database "SQLite" log c p) refl;
    sha_missing = λ log p. ("remote file not accessible: " <> database, rw p refl);
    size_found = λ log c p. rw (p, written-content write_database "SQLite" log c p) refl;
    after_sha = λ log. refl;
    after_stat = λ log. refl;
    after_parent = λ log. refl;
  };
  is_file = λ log. refl;
  writable = record { parent_made = λ log. refl; tee_done = λ log. refl; after_tee = λ log. refl };
}

pub certificate-KeepsFile : KeepsFile host hash encode file certificate "pem"
unfolding host written sha_of size_of trim_space fields atoi dir
certificate-KeepsFile = record {
  holds = record {
    file = λ log. file log certificate;
    sha_found = λ log c p. rw (p, written-content write_certificate "pem" log c p) refl;
    sha_missing = λ log p. ("remote file not accessible: " <> certificate, rw p refl);
    size_found = λ log c p. rw (p, written-content write_certificate "pem" log c p) refl;
    after_sha = λ log. refl;
    after_stat = λ log. refl;
    after_parent = λ log. refl;
  };
  is_file = λ log. refl;
  writable = record { parent_made = λ log. refl; tee_done = λ log. refl; after_tee = λ log. refl };
}

pub apart : LeavesAlone encode file (database, "SQLite") (certificate, "pem")
unfolding written dir
apart o = record {
  by_sha = λ log h. h;
  by_stat = λ log h. h;
  by_parent = λ log h. h;
  by_tee = λ log h. h;
}

abbrev pub state : SystemState
state = record {
  hostname = "relay-ru-01";
  location = "ru";
  role = "relay";
  timestamp = pos 0;
  system_info = [];
  certificates = ("ru/cert.pem", "pem") ∷ [];
  databases = ("x-ui.db", "SQLite") ∷ [];
  configs = ("ufw_rules", "rules") ∷ [];
  ssh_public_keys = [];
  docker = record {
    containers = [];
    images = [];
    networks = end;
    volumes = [];
    volume_data = [];
    compose_yaml = "";
  };
  nomad = record { jobs = []; nodes = []; allocations = end };
}

unfoldable pub host_files : HoldsFiles host hash encode (files_of state)
unfolding certificate_restore_path split
host_files = record {
  file = file;
  keeps = (database-KeepsFile, (certificate-KeepsFile, tt));
  apart = ((apart, tt), (tt, tt));
}

pub restorable : All (λ (_, content). IsRestorable hash content) (files_of state)
unfolding certificate_restore_path split
restorable = (
  record { some_bytes = omega arith; unique = λ c same long. same },
  (record { some_bytes = omega arith; unique = λ c same long. same }, tt),
)

-- A server that prints one file's hash and size.
printer : Server
printer log cmd =
    if cmd == sha_command true database
    then sha_reply "5891b5b5" database
    else if cmd == stat_command true database
    then size_reply 5
    else done ""

only_content : (c : String) → ◌≡◌ {A = Option String} (some "hello") (some c) → c ≡ "hello"
only_content c p = cc

printer-PrintsFile : PrintsFile printer (λ c. "5891b5b5") database true
unfolding printer dir is_space
printer-PrintsFile = record {
  file = λ log. some "hello";
  sha_printed = λ log c p. refl;
  sha_failed = λ log p. absurd (ground arith);
  size_printed = λ log c p. rw (only_content c p) refl;
  fits = λ log c p. rw (only_content c p) (omega arith);
  is_hash = λ c. (λ e. cc, (refl, (refl, (refl, (refl, (refl, (refl, (refl, (refl, tt)))))))));
  after_sha = λ log. refl;
  after_stat = λ log. refl;
  after_parent = λ log. refl;
}

inspect_remote_file-printed_example : inspect_remote_file printer database true [] ≡ (
  ok (record { sha256 = "5891b5b5"; size = pos 5 }),
  stat_command true database ∷ sha_command true database ∷ [],
)
unfolding printer-PrintsFile
inspect_remote_file-printed_example =
    inspect_remote_file-printed printer (λ c. "5891b5b5") database true printer-PrintsFile []
      "hello" refl
