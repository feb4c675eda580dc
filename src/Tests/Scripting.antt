-- ===== src/Tests/Scripting.antt =====
-- The mock, with the scripts of internal/extractor/restore_test.go.
use ghost_ship.Base.{
  String, ◌≡◌, refl, some, none, true, List, [], ◌∷◌, ◌++◌, reverse, ◌==◌, if◌then◌else◌, reverse,
}
use ghost_ship.Base.Text.{has_infix, trim_space, fields}
use ghost_ship.Base.Decimal.{atoi}
use ghost_ship.Base.FilePath.{dir}
use ghost_ship.Extractor.Restore.{
  sha_command, stat_command, parent_command, tee_command, sha_of, size_of, inspect_remote_file,
  restore_bytes_if_changed, ensure_remote_parent_dir,
}
use ghost_ship.Mocks.{MockOutcome, MockScript, MockSshRunner, new_mock, mock_run}
use ghost_ship.Mocks.Runs.{scripted, replay, mock_run-scripted}

abbrev path : String
path = "/etc/x-ui/xray.json"

abbrev content : String
content = "new db content"

abbrev hash : String → String
hash s = if s == content then "3f2a" else "0000"

abbrev encode : String → String
encode s = "bmV3IGRiIGNvbnRlbnQ="

abbrev gives : String → MockOutcome
gives text = record { response = text; err = none }

abbrev scripts : List MockScript
scripts =
    record {
      contains = "sudo sha256sum /etc/x-ui/xray.json";
      outcomes =
          record { response = ""; err = some "not found" } ∷ gives "3f2a  /etc/x-ui/xray.json" ∷ [];
    }
    ∷ record { contains = "sudo mkdir -p /etc/x-ui"; outcomes = gives "" ∷ [] }
    ∷ record { contains = "sudo tee /etc/x-ui/xray.json"; outcomes = gives "written" ∷ [] }
    ∷ record {
      contains = "sudo stat -c %s /etc/x-ui/xray.json";
      outcomes = gives "14" ∷ gives "14" ∷ [];
    }
    ∷ []

abbrev mock : MockSshRunner
mock = record (new_mock []) { scripts = scripts }

writes_and_verifies :
    restore_bytes_if_changed (scripted [] scripts) hash encode path content true [] ≡ (
      none,
      stat_command true path
          ∷ sha_command true path
          ∷ tee_command true "bmV3IGRiIGNvbnRlbnQ=" path
          ∷ parent_command true path
          ∷ sha_command true path
          ∷ [],
    )
unfolding restore_bytes_if_changed inspect_remote_file ensure_remote_parent_dir sha_of size_of
    scripted has_infix trim_space fields atoi dir
writes_and_verifies = refl

mock_run-scripted_example :
    ((mock_run (sha_command true path) (replay (sha_command true path ∷ []) mock)).0
      ≡ scripted [] scripts (sha_command true path ∷ []) (sha_command true path))
    × ((replay (sha_command true path ∷ []) mock).commands
        ≡ [] ++ reverse (sha_command true path ∷ []))
mock_run-scripted_example =
    mock_run-scripted mock (sha_command true path ∷ []) (sha_command true path)
