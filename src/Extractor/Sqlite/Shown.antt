-- ===== src/Extractor/Sqlite/Shown.antt =====
-- Which of the databases of a server with fixed replies is extracted.
use ghost_ship.Base.{
  String, ◌<>◌, ◌≡◌, refl, Option, none, some, ok, err, inl, inr, List, [], ◌∷◌, All, ltb, count,
  arith, eq_iff, if◌then◌else◌, Bool-cases, Option-cases,
}
use ghost_ship.Base.Dict.{Dict, insert}
use ghost_ship.Ssh.{Reply}
use ghost_ship.Extractor.Read.{first_output, has_output}
use ghost_ship.Extractor.Sqlite.{database_commands, extract_database, database_loop}

-- The first reply of some commands that has an output.
unfoldable pub first_shown : (String → Reply) → List String → Option String
first_shown answers [] = none
first_shown answers (cmd ∷ cmds) =
    if has_output (answers cmd) then some (answers cmd).out else first_shown answers cmds

-- The content of the last of some paths that has one.
unfoldable pub last_shown : (String → Reply) → List String → Option String → Option String
unfolding first_shown
last_shown answers [] before = before
last_shown answers (path ∷ paths) before =
    last_shown answers paths (elim (first_shown answers (database_commands path)) [
      | none ↦ before
      | some c ↦ if ltb 0 (count c) then some c else before
    ])

abbrev pub kept_as : String → Option String → Dict String
kept_as key none = []
kept_as key (some c) = (key, c) ∷ []

insert-kept : (k c : String) (o : Option String) → insert k c (kept_as k o) ≡ kept_as k (some c)
unfolding insert
insert-kept k c none = refl
insert-kept k c (some b) = rw ((eq_iff k k).1 refl) refl

module _ (answers : String → Reply) where
  first_output-shown :
      (path : String) (cmds : List String) (log : List String)
      → (first_output (λ _ cmd. answers cmd) ("unable to read database: " <> path) cmds log).0
        ≡ (elim (first_shown answers cmds) [
          | none ↦ err ("unable to read database: " <> path)
          | some c ↦ ok c
        ])
  unfolding first_output first_shown
  first_output-shown path [] log = refl
  first_output-shown path (cmd ∷ cmds) log = elim (Bool-cases (has_output (answers cmd))) [
    | inl p ↦ ground (arith, p)
    | inr p ↦ ground (arith, p, first_output-shown path cmds (cmd ∷ log))
  ]

  pub database_loop-last :
      (key : String → String) (k : String) (paths : List String) (before : Option String)
      (log : List String)
      → All (λ path. key path ≡ k) paths
      → (database_loop (λ _ cmd. answers cmd) key paths (kept_as k before) log).0
        ≡ kept_as k (last_shown answers paths before)
  unfolding database_loop extract_database last_shown
  database_loop-last key k [] before log h = refl
  database_loop-last key k (path ∷ paths) before log (same, h) =
      let r = extract_database (λ _ cmd. answers cmd) path log in
      let said : r.0 ≡ (elim (first_shown answers (database_commands path)) [
        | none ↦ err ("unable to read database: " <> path)
        | some c ↦ ok c
      ]) =
        first_output-shown path (database_commands path) log in
      elim (Option-cases (first_shown answers (database_commands path))) [
        | inl p ↦ ground (arith, p, said, database_loop-last key k paths before r.1 h)
        | inr (c, p) ↦ elim (Bool-cases (ltb 0 (count c))) [
          | inl q ↦ ground (
            arith,
            p,
            q,
            said,
            same,
            insert-kept k c before,
            database_loop-last key k paths (some c) r.1 h,
          )
          | inr q ↦ ground (arith, p, q, said, database_loop-last key k paths before r.1 h)
        ]
      ]
