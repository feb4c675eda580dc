-- ===== src/Tests/Repeating.antt =====
-- A second restore on the server that keeps two files.
use ghost_ship.Base.{String, List, [], ◌∷◌}
use ghost_ship.Tests.Placing.{write_database, write_certificate}

-- The commands that have put the files.
abbrev puts : List String
puts = write_certificate ∷ write_database ∷ []
