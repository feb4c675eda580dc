-- ===== src/Mocks/Runs.antt =====
-- The mock as a server: its replies by the commands that were sent before.
use ghost_ship.Base.{
  ℕ, zero, suc, String, ◌≡◌, refl, inl, inr, none, List, [], ◌∷◌, ◌++◌, reverse, if◌then◌else◌,
  arith, ap, ◌∙◌, Bool-cases, append-nil, append_assoc, reverse-cons, drop,
}
use ghost_ship.Base.Text.{has_infix}
use ghost_ship.Base.Dict.{Dict}
use ghost_ship.Ssh.{Reply, Server}
use ghost_ship.Mocks.{
  MockOutcome, MockScript, MockSshRunner, next_outcome, respond, run_scripts, mock_run,
}

-- How many commands contain a text, and the other ones.
abbrev pub fitting : String → List String → ℕ
fitting t [] = 0
fitting t (c ∷ log) = let n = fitting t log in if has_infix c t then suc n else n

abbrev pub others : String → List String → List String
others t [] = []
others t (c ∷ log) = let rest = others t log in if has_infix c t then rest else c ∷ rest

abbrev pub outcome_at : ℕ → List MockOutcome → Reply
outcome_at n [] = record { out = ""; err = none }
outcome_at zero (o ∷ outcomes) = record { out = o.response; err = o.err }
outcome_at (suc n) (o ∷ outcomes) = outcome_at n outcomes

-- A command is answered by the first script that it fits, and a script gives its outcomes in turn
-- to the commands that reach it.
unfoldable pub scripted : Dict String → List MockScript → Server
scripted responses [] log cmd = respond responses cmd
scripted responses (s ∷ scripts) log cmd =
    let rest = scripted responses scripts (others s.contains log) cmd in
    if has_infix cmd s.contains then outcome_at (fitting s.contains log) s.outcomes else rest

-- A mock behind commands, newest first.
abbrev pub replay : List String → MockSshRunner → MockSshRunner
replay [] m = m
replay (cmd ∷ log) m = (mock_run cmd (replay log m)).1

abbrev spent : ℕ → MockScript → MockScript
spent n s = record s { outcomes = drop n s.outcomes }

-- The scripts behind commands.
after : List MockScript → List String → List MockScript
after [] log = []
after (s ∷ scripts) log = spent (fitting s.contains log) s ∷ after scripts (others s.contains log)

next_outcome-spent :
    (n : ℕ) (t : String) (outcomes : List MockOutcome)
    → next_outcome (record { contains = t; outcomes = drop n outcomes })
      ≡ (outcome_at n outcomes, record { contains = t; outcomes = drop (suc n) outcomes })
next_outcome-spent zero t [] = refl
next_outcome-spent (suc n) t [] = refl
next_outcome-spent zero t (o ∷ outcomes) = refl
next_outcome-spent (suc n) t (o ∷ outcomes) = next_outcome-spent n t outcomes

run_scripts-after :
    (responses : Dict String) (scripts : List MockScript) (log : List String) (cmd : String)
    → run_scripts responses (after scripts log) cmd
      ≡ (scripted responses scripts log cmd, after scripts (cmd ∷ log))
unfolding run_scripts scripted after
run_scripts-after responses [] log cmd = refl
run_scripts-after responses (s ∷ scripts) log cmd = elim (Bool-cases (has_infix cmd s.contains)) [
  | inl p ↦ ground (arith, p, next_outcome-spent (fitting s.contains log) s.contains s.outcomes)
  | inr p ↦ ground (arith, p, run_scripts-after responses scripts (others s.contains log) cmd)
]

after-nil : (scripts : List MockScript) → after scripts [] ≡ scripts
unfolding after
after-nil [] = refl
after-nil (s ∷ scripts) = ap (λ rest. s ∷ rest) (after-nil scripts)

abbrev behind : MockSshRunner → List String → MockSshRunner
behind m log = record m { scripts = after m.scripts log; commands = m.commands ++ reverse log }

mock_run-behind :
    (m : MockSshRunner) (log : List String) (cmd : String)
    → mock_run cmd (behind m log) ≡ (scripted m.responses m.scripts log cmd, behind m (cmd ∷ log))
unfolding mock_run
mock_run-behind m log cmd =
    let e = run_scripts-after m.responses m.scripts log cmd in
    let said = reverse-cons cmd log in
    let order = append_assoc m.commands (reverse log) (cmd ∷ []) in ground (arith, e, said, order)

replay-behind : (m : MockSshRunner) (log : List String) → replay log m ≡ behind m log
replay-behind m [] = rw (after-nil m.scripts, append-nil m.commands) refl
replay-behind m (cmd ∷ log) =
    ap (λ k. (mock_run cmd k).1) (replay-behind m log) ∙ ap (λ p. p.1) (mock_run-behind m log cmd)

-- A mock is a server. Behind any commands, its next reply is that of the first script that the
-- command fits, of whose outcomes those are used up that went to the commands before which fit this
-- script and none above it; a script without outcomes replies with nothing and no error; a command
-- that fits no script is left to the responses. And the mock has recorded every command in order.
pub mock_run-scripted :
    (m : MockSshRunner) (log : List String) (cmd : String)
    → ((mock_run cmd (replay log m)).0 ≡ scripted m.responses m.scripts log cmd)
      × ((replay log m).commands ≡ m.commands ++ reverse log)
mock_run-scripted m log cmd =
    let e = replay-behind m log in
    (
      ap (λ k. (mock_run cmd k).0) e ∙ ap (λ p. p.0) (mock_run-behind m log cmd),
      ap (λ (k : MockSshRunner). k.commands) e,
    )
