-- ===== src/Extractor/Sqlite/Collision.antt =====
-- Databases are kept under the base names of their paths.
use ghost_ship.Base.{
  String, ◌≡◌, refl, inl, inr, true, List, [], ◌∷◌, All, ltb, count, Result-cases, Bool-cases, ◌==◌,
  eq_iff,
}
use ghost_ship.Base.Dict.{Dict, insert}
use ghost_ship.Ssh.{Server}
use ghost_ship.Extractor.Sqlite.{database_loop, extract_database}

-- At most one entry, and under one key.
abbrev pub IsOnly : String → Dict String → Type 0
IsOnly k [] = Unit
IsOnly k ((j, v) ∷ d) = (j ≡ k) × (d ≡ [])

insert-IsOnly : (k v : String) (d : Dict String) → IsOnly k d → IsOnly k (insert k v d)
unfolding insert
insert-IsOnly k v [] h = (refl, refl)
insert-IsOnly k v ((j, w) ∷ d) (p, q) =
    let same : (j == k) ≡ true = (eq_iff j k).1 p in rw (same, IsOnly) (refl, q)

module _ (server : Server) (key : String → String) (k : String) where
  -- Paths of which all have one key leave one database: the last that was read.
  pub database_loop-IsOnly :
      (paths : List String) (databases : Dict String) (log : List String)
      → All (λ path. key path ≡ k) paths
      → IsOnly k databases
      → IsOnly k (database_loop server key paths databases log).0
  unfolding database_loop
  database_loop-IsOnly [] databases log _ h = h
  database_loop-IsOnly (path ∷ paths) databases log (same, rest) h =
      let r = extract_database server path log in
      elim (Result-cases r.0) [
        | inl (c, p) ↦ elim (Bool-cases (ltb 0 (count c))) [
          | inl q ↦
              rw (p, q, IsOnly)
                (database_loop-IsOnly paths (insert (key path) c databases) r.1 rest
                  (rw same (insert-IsOnly k c databases h)))
          | inr q ↦ rw (p, q, IsOnly) (database_loop-IsOnly paths databases r.1 rest h)
        ]
        | inr (e, p) ↦ rw (p, IsOnly) (database_loop-IsOnly paths databases r.1 rest h)
      ]
