-- ===== src/Mocks.antt =====
-- internal/mocks: the runner of the Go tests, with scripted replies. `Run` changes the mock, which is
-- passed on here.
pub mod Runs
use ghost_ship.Base.{ℕ, String, Error, some, none, List, [], ◌∷◌, ◌++◌, Bool, if◌then◌else◌}
use ghost_ship.Base.Text.{has_infix}
use ghost_ship.Base.Dict.{Dict}
use ghost_ship.Ssh.{Reply}

pub record MockOutcome : Type 0 where
  pub response : String
  pub err : Error

pub record MockScript : Type 0 where
  pub contains : String
  pub outcomes : List MockOutcome

pub record MockSshRunner : Type 0 where
  pub responses : Dict String
  pub scripts : List MockScript
  pub commands : List String

-- `NewMockSSHRunner`
abbrev pub new_mock : Dict String → MockSshRunner
new_mock responses = record { responses = responses; scripts = []; commands = [] }

-- The first outcome that a script has left, and the script without it.
abbrev pub next_outcome : MockScript → Reply × MockScript
next_outcome s = elim s.outcomes [
  | [] ↦ (record { out = ""; err = none }, s)
  | o ∷ outcomes ↦ (record { out = o.response; err = o.err }, record s { outcomes = outcomes })
]

-- The loop over the responses, in the order that the range takes.
unfoldable pub respond : Dict String → String → Reply
respond [] cmd = record { out = ""; err = some "not found" }
respond ((k, v) ∷ responses) cmd =
    let rest = respond responses cmd in
    if has_infix cmd k then record { out = v; err = none } else rest

-- The loop over the scripts: the reply of the first that a command fits, and the scripts behind it.
unfoldable pub run_scripts : Dict String → List MockScript → String → Reply × List MockScript
unfolding respond
run_scripts responses [] cmd = (respond responses cmd, [])
run_scripts responses (s ∷ scripts) cmd =
    let (r, scripts') = run_scripts responses scripts cmd in
    let (first, s') = next_outcome s in
    if has_infix cmd s.contains then (first, s' ∷ scripts) else (r, s ∷ scripts')

unfoldable pub mock_run : String → MockSshRunner → Reply × MockSshRunner
unfolding run_scripts
mock_run cmd m =
    let (r, scripts) = run_scripts m.responses m.scripts cmd in
    (r, record m { scripts = scripts; commands = m.commands ++ cmd ∷ [] })

-- `Close`
abbrev pub mock_close : MockSshRunner → Error
mock_close m = none
