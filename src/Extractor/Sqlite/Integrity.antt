-- ===== src/Extractor/Sqlite/Integrity.antt =====
-- Which texts pass for databases.
use ghost_ship.Base.{String, ◌≡◌, ◌↔◌, true, none, ◌≤◌, count, arith, eq_iff, eq_refl, starts_with}
use ghost_ship.Base.Float.{Float64}
use ghost_ship.Base.Text.{first_bytes}
use ghost_ship.Base.Text.Split.{first_bytes-starts_with_iff}
use ghost_ship.Extractor.Sqlite.{
  sqlite_header, verify_database_integrity, validate_database_backup, compare_database,
}

-- A text passes for a database exactly if it starts with the header of SQLite and is 512 bytes or
-- longer.
pub verify_database_integrity-none_iff :
    (content : String)
    → (verify_database_integrity content ≡ none)
      ↔ ((starts_with content sqlite_header ≡ true) × (512 ≤ count content))
unfolding verify_database_integrity
verify_database_integrity-none_iff content = (
  λ h.
      let long : 512 ≤ count content = ground arith in
      (
        (first_bytes-starts_with_iff content sqlite_header (omega (arith, long))).0
            ((eq_iff (first_bytes 15 content) sqlite_header).0 (ground arith)),
        long,
      ),
  λ (p, long).
      let same =
        (eq_iff (first_bytes 15 content) sqlite_header).1
          ((first_bytes-starts_with_iff content sqlite_header (omega (arith, long))).1 p) in
      ground (arith, same, long),
)

-- A backup is accepted exactly if it passes for a database: the size that is looked at after that is
-- only warned of.
pub validate_database_backup-none_iff :
    (content : String)
    → (validate_database_backup content ≡ none) ↔ (verify_database_integrity content ≡ none)
unfolding validate_database_backup
validate_database_backup-none_iff content = (λ h. ground arith, λ h. ground (arith, h))

-- If the two texts do not have one hash without being the same, the comparison calls them identical
-- exactly if they are.
pub compare_database-identical_iff :
    {W : Type 0} (float : Float64 W) (sha256_hex : String → String) (old new : String)
    → (sha256_hex old ≡ sha256_hex new → old ≡ new)
    → ((compare_database float sha256_hex old new).identical ≡ true) ↔ (old ≡ new)
unfolding compare_database
compare_database-identical_iff float sha256_hex old new unique = (
  λ h. unique ((eq_iff (sha256_hex old) (sha256_hex new)).0 h),
  λ h. rw h (eq_refl (sha256_hex new)),
)
