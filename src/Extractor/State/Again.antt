-- ===== src/Extractor/State/Again.antt =====
-- A restore on a server that already has the files.
use ghost_ship.Base.{String, ◌≡◌, Option, true, some, List, [], ◌∷◌}
use ghost_ship.Extractor.Restore.{sha_command, stat_command}
use ghost_ship.Extractor.State.Files.{Placed}

-- The two questions about each file, in the order of the files.
abbrev pub questions : List Placed → List String → List String
questions [] log = log
questions ((path, _) ∷ files) log =
    questions files (stat_command true path ∷ sha_command true path ∷ log)

abbrev pub HasFile : (String → Option String) → Placed → Type 0
HasFile file (path, content) = file path ≡ some content

-- The questions about one file leave another one as it is.
pub record IsQuiet (file : List String → String → Option String) (asked other : Placed)
    : Type 0 where
  pub by_sha :
      (log : List String) → file (sha_command true asked.0 ∷ log) other.0 ≡ file log other.0
  pub by_stat :
      (log : List String) → file (stat_command true asked.0 ∷ log) other.0 ≡ file log other.0
