-- ===== src/Tests/Restoring.antt =====
-- Restoring a file on a server that keeps it.
use ghost_ship.Base.{
  String, ◌<>◌, ◌≡◌, refl, inl, inr, true, Option, none, some, List, [], ◌∷◌, arith, ◌==◌,
  if◌then◌else◌, Bool-cases, ◌||◌,
}
use ghost_ship.Base.Text.{trim_space, fields}
use ghost_ship.Base.Decimal.{atoi}
use ghost_ship.Base.FilePath.{dir}
use ghost_ship.Ssh.{Reply, Server}
use ghost_ship.Extractor.Restore.{
  sha_command, stat_command, parent_command, tee_command, sha_of, size_of, inspect_remote_file,
  restore_bytes_if_changed, ensure_remote_parent_dir,
}
use ghost_ship.Extractor.Restore.Inspect.{Reports}
use ghost_ship.Extractor.Restore.Verified.{inspected}
use ghost_ship.Extractor.Restore.File.{HoldsFile, IsWritable, restore_bytes_if_changed_succeeds}

abbrev path : String
path = "/etc/x-ui/xray.json"

abbrev content : String
content = "hello"

-- The text itself stands for its hash, which no other text has.
abbrev hash : String → String
hash s = s

abbrev encode : String → String
encode s = "<" <> s <> ">"

-- The file after some commands.
file : List String → Option String
file [] = none
file (cmd ∷ log) = if cmd == tee_command true (encode content) path then some content else file log

answer : Option String → String → Reply
answer none cmd =
    if cmd == parent_command true path || cmd == tee_command true (encode content) path
    then record { out = ""; err = none }
    else record { out = ""; err = some "exit status 1" }
answer (some c) cmd =
    if cmd == sha_command true path
    then record { out = "hello  /etc/x-ui/xray.json\n"; err = none }
    else if cmd == stat_command true path
    then record { out = "5\n"; err = none }
    else record { out = ""; err = none }

host : Server
unfolding file answer
host log cmd = answer (file log) cmd

file-content : (log : List String) (c : String) → file log ≡ some c → c ≡ content
unfolding file
file-content [] c h = cc
file-content (cmd ∷ log) c h = elim (Bool-cases (cmd == tee_command true (encode content) path)) [
  | inl p ↦ ground arith
  | inr p ↦ file-content log c (ground arith)
]

host-HoldsFile : HoldsFile host hash path true
unfolding host sha_of size_of trim_space fields atoi dir
host-HoldsFile = record {
  file = file;
  sha_found = λ log c p. rw (p, file-content log c p) refl;
  sha_missing = λ log p. ("remote file not accessible: /etc/x-ui/xray.json", rw p refl);
  size_found = λ log c p. rw (p, file-content log c p) refl;
  after_sha = λ log. refl;
  after_stat = λ log. refl;
  after_parent = λ log. refl;
}

answer_parent : (o : Option String) → (answer o (parent_command true path)).err ≡ none
unfolding answer dir
answer_parent none = refl
answer_parent (some c) = refl

answer_tee : (o : Option String) → (answer o (tee_command true (encode content) path)).err ≡ none
unfolding answer dir
answer_tee none = refl
answer_tee (some c) = refl

host-IsWritable : IsWritable host hash encode path content true host-HoldsFile
unfolding host host-HoldsFile
host-IsWritable = record {
  parent_made = λ log. answer_parent (file log);
  tee_done = λ log. answer_tee (file log);
  after_tee = λ log. refl;
}

-- The commands of a restore of a missing file, newest first.
abbrev stored : List String
stored =
    stat_command true path
    ∷ sha_command true path
    ∷ tee_command true "<hello>" path
    ∷ parent_command true path
    ∷ sha_command true path
    ∷ []

restored_once : restore_bytes_if_changed host hash encode path content true [] ≡ (none, stored)
unfolding restore_bytes_if_changed inspect_remote_file ensure_remote_parent_dir host sha_of size_of
    trim_space fields atoi dir
restored_once = refl

no_error : (restore_bytes_if_changed host hash encode path content true []).0 ≡ none
unfolding restore_bytes_if_changed inspect_remote_file ensure_remote_parent_dir host sha_of size_of
    trim_space fields atoi dir
no_error = refl

reported : Reports host path true "hello" content stored
unfolding host sha_of size_of trim_space fields atoi dir
reported = record { sha_shown = refl; size_shown = refl }

restore_bytes_if_changed_succeeds_example :
    let (e, end) = restore_bytes_if_changed host hash encode path content true [] in
    (e ≡ none)
    × (host-HoldsFile.file end ≡ some content)
    × (restore_bytes_if_changed host hash encode path content true end
        ≡ (none, inspected host hash encode path content true end))
restore_bytes_if_changed_succeeds_example =
    restore_bytes_if_changed_succeeds host hash encode path content true host-HoldsFile
      host-IsWritable [] (λ c same long. same) (omega arith)
