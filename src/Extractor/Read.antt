-- ===== src/Extractor/Read.antt =====
-- How the extraction reads: the first command that prints something, and tables of commands whose
-- outputs are kept under a key.
use ghost_ship.Base.{
  String, ◌≡◌, refl, Result, ok, err, Option, none, some, List, [], ◌∷◌, arith, ◌==◌, if◌then◌else◌,
  Bool, eq_iff, Bool-cases, Option-cases, inl, inr, true,
}
use ghost_ship.Base.Text.{nonempty}
use ghost_ship.Base.Dict.{Dict, lookup, insert, lookup-insert, NodupKeys}
use ghost_ship.Ssh.{Reply, Server, Ssh}

-- `err == nil && len(out) > 0`
abbrev pub has_output : Reply → Bool
has_output r = elim r.err [ none ↦ nonempty r.out | some _ ↦ Bool.false ]

module _ (server : Server) where
  -- The first output of some commands that is not empty, where the command succeeds.
  unfoldable pub first_output : String → List String → Ssh (Result String)
  first_output message [] log = (err message, log)
  first_output message (cmd ∷ cmds) log =
      let r = server log cmd in
      let rest = first_output message cmds (cmd ∷ log) in
      if has_output r then (ok r.out, cmd ∷ log) else rest

  -- One command for each key; `accept` says what is kept of an output.
  unfoldable pub collect :
      (String → Option String) → List (String × String) → Dict String → Ssh (Dict String)
  collect accept [] found log = (found, log)
  collect accept ((key, cmd) ∷ items) found log =
      let r = server log cmd in
      let lost = collect accept items found (cmd ∷ log) in
      let kept = λ (v : String). collect accept items (insert key v found) (cmd ∷ log) in
      elim r.err [ some _ ↦ lost | none ↦ elim (accept r.out) [ none ↦ lost | some v ↦ kept v ] ]

-- A reference for a table of commands: what is kept of one reply, or what was there before.
abbrev pub kept_or : (String → Option String) → Reply → Option String → Option String
kept_or accept r before = elim r.err [
  | some _ ↦ before
  | none ↦ elim (accept r.out) [ none ↦ before | some v ↦ some v ]
]

abbrev pub collected :
    (String → Reply) → (String → Option String) → Option String → Option String → Option String
collected answers accept none before = before
collected answers accept (some cmd) before = kept_or accept (answers cmd) before

-- On a server with fixed replies, a table with distinct keys is kept entry by entry, so that the
-- order of its rows does not show.
pub lookup-collect :
    (answers : String → Reply) (accept : String → Option String) (k : String)
    (items : List (String × String)) (found : Dict String) (log : List String)
    → NodupKeys items
    → lookup k (collect (λ _ cmd. answers cmd) accept items found log).0
      ≡ collected answers accept (lookup k items) (lookup k found)
unfolding collect lookup
lookup-collect answers accept k [] found log h = refl
lookup-collect answers accept k ((key, cmd) ∷ items) found log (fresh, h) =
    let rest = λ (d : Dict String). lookup-collect answers accept k items d (cmd ∷ log) h in
    elim (Bool-cases (key == k)) [
      | inl p ↦
          let same : key ≡ k = (eq_iff key k).0 p in
          let none_left : lookup k items ≡ none = ground (arith, fresh, same) in
          elim (Option-cases (accept (answers cmd).out)) [
            | inl a ↦ ground (arith, p, a, rest found, none_left)
            | inr (v, a) ↦ ground (
              arith,
              p,
              a,
              rest found,
              rest (insert key v found),
              none_left,
              lookup-insert key k v found,
            )
          ]
      | inr p ↦ elim (Option-cases (accept (answers cmd).out)) [
        | inl a ↦ ground (arith, p, a, rest found)
        | inr (v, a) ↦
            ground (arith, p, a, rest found, rest (insert key v found), lookup-insert key k v found)
      ]
    ]

-- The reference for reading: the output of the first command that prints something.
pub first_output-fixed :
    (answers : String → Reply) (message : String) (cmds : List String) (log : List String)
    (out : String)
    → (first_output (λ _ cmd. answers cmd) message cmds log).0 ≡ ok out
    → (cmd : String) × (has_output (answers cmd) ≡ true) × ((answers cmd).out ≡ out)
unfolding first_output
first_output-fixed answers message [] log out h = absurd (ground arith)
first_output-fixed answers message (cmd ∷ cmds) log out h =
    elim (Bool-cases (has_output (answers cmd))) [
      | inl p ↦ (cmd, p, ground (arith, p))
      | inr p ↦ first_output-fixed answers message cmds (cmd ∷ log) out (ground (arith, p))
    ]
