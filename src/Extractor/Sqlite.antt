-- ===== src/Extractor/Sqlite.antt =====
-- internal/extractor/sqlite.go: databases. SHA-256 in hexadecimal is a parameter.
pub mod Integrity
pub mod Collision
pub mod Shown
use ghost_ship.Base.{
  String, ◌<>◌, Bool, Error, Result, ok, err, Option, none, some, List, [], ◌∷◌, ◌+◌, ◌-◌, ◌==◌,
  ltb, count, if◌then◌else◌, ℕ,
}
use ghost_ship.Base.Text.{trim_space, quote, first_bytes}
use ghost_ship.Base.Int.{ℤ, pos, difference}
use ghost_ship.Base.Float.{Float64}
use ghost_ship.Base.Decimal.{format_nat}
use ghost_ship.Base.Dict.{Dict, insert}
use ghost_ship.Ssh.{Server, Ssh, pure, run, ◌>>=◌}
use ghost_ship.Extractor.Read.{first_output, collect}

abbrev pub sqlite_header : String
sqlite_header = "SQLite format 3"

abbrev pub default_database : String
default_database = "/opt/3x-ui/db/x-ui.db"

abbrev pub all_database_paths : List String
all_database_paths =
    "/opt/3x-ui/db/x-ui.db" ∷ "/opt/x-ui/db/x-ui.db" ∷ "/app/db/x-ui.db" ∷ "/var/lib/xui/x-ui.db"
    ∷ "/root/.config/x-ui/db/x-ui.db" ∷ "/home/x-ui/.config/x-ui/db/x-ui.db"
    ∷ "/opt/xray/db/x-ui.db" ∷ "/etc/x-ui/db/x-ui.db" ∷ []

abbrev pub database_commands : String → List String
database_commands path =
    ("cat " <> path <> " 2>/dev/null")
    ∷ ("sudo cat " <> path <> " 2>/dev/null")
    ∷ ("sudo -u root cat " <> path <> " 2>/dev/null || sudo cat " <> path <> " 2>/dev/null")
    ∷ []

abbrev pub metadata_commands : String → List (String × String)
metadata_commands path =
    ("size_bytes", "stat -c %s " <> path <> " 2>/dev/null || stat -f %z " <> path <> " 2>/dev/null")
    ∷ ("modified", "stat -c %y " <> path <> " 2>/dev/null | cut -d' ' -f1-2")
    ∷ ("permissions", "stat -c %a " <> path <> " 2>/dev/null")
    ∷ ("owner", "stat -c %U:%G " <> path <> " 2>/dev/null")
    ∷ ("sha256", "sha256sum " <> path <> " 2>/dev/null | cut -d' ' -f1")
    ∷ []

module _ (server : Server) where
  unfoldable pub extract_database : String → Ssh (Result String)
  extract_database path =
      first_output server ("unable to read database: " <> path) (database_commands path)

  -- The databases that can be read, under the keys that `key` gives their paths.
  unfoldable pub database_loop : (String → String) → List String → Dict String → Ssh (Dict String)
  database_loop key [] databases log = (databases, log)
  database_loop key (path ∷ paths) databases log =
      let (content, log') = extract_database path log in
      let skipped = database_loop key paths databases log' in
      let found = λ (c : String). database_loop key paths (insert (key path) c databases) log' in
      elim content [ err _ ↦ skipped | ok c ↦ if ltb 0 (count c) then found c else skipped ]

  unfoldable pub extract_all_databases : Ssh (Dict String)
  unfolding database_loop
  extract_all_databases = database_loop (λ path. path) all_database_paths []

  unfoldable pub database_metadata : String → Ssh (Dict String)
  database_metadata path = collect server (λ out. some (trim_space out)) (metadata_commands path) []

  unfoldable pub backup_database_path : Ssh String
  backup_database_path = do
    r ← run server "find /opt /app /var/lib -name '*x-ui*.db' -type f 2>/dev/null | head -1"
    pure (elim r.err [
      | some _ ↦ default_database
      | none ↦ if trim_space r.out == "" then default_database else trim_space r.out
    ])

unfoldable pub verify_database_integrity : String → Error
verify_database_integrity content =
    if ltb (count content) (count sqlite_header)
    then some
        ("data too small to be a valid sqlite database: " <> format_nat (count content) <> " bytes")
    else let start = first_bytes 15 content in
      if start == sqlite_header
      then (if ltb (count content) 512
          then some
              ("database file too small: " <> format_nat (count content) <> " bytes (minimum 512)")
          else none)
      else some ("invalid sqlite header: expected 'SQLite format 3', got " <> quote start)

unfoldable pub validate_database_backup : String → Error
unfolding verify_database_integrity
validate_database_backup content = elim (verify_database_integrity content) [
  | some e ↦ some ("database integrity check failed: " <> e)
  | none ↦ none
]

pub record Comparison (W : Type 0) : Type 0 where
  pub old_size : ℕ
  pub new_size : ℕ
  pub size_change : ℤ
  pub old_hash : String
  pub new_hash : String
  pub identical : Bool
  -- `growth_percent`, where there is growth; a file that was empty divides by zero.
  pub growth_percent : Option W

unfoldable pub compare_database :
    {W : Type 0} → Float64 W → (String → String) → String → String → Comparison W
compare_database float sha256_hex old new = record {
  old_size = count old;
  new_size = count new;
  size_change = difference (count new) (count old);
  old_hash = sha256_hex old;
  new_hash = sha256_hex new;
  identical = sha256_hex old == sha256_hex new;
  growth_percent =
      if ltb (count old) (count new)
      then some (
          float.times
            (float.over (float.of_int (difference (count new) (count old)))
              (float.of_int (pos (count old))))
            (float.of_int (pos 100)))
      else none;
}
