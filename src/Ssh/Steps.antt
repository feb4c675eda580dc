-- ===== src/Ssh/Steps.antt =====
-- The reference for code that sends a fixed list of commands and stops at the first that fails.
use ghost_ship.Base.{
  String, ◌<>◌, ◌≡◌, ◌↔◌, refl, Error, none, some, List, [], ◌∷◌, ◌++◌, arith, ap, inl, inr,
  Option-cases,
}
use ghost_ship.Ssh.{Server, Ssh, pure, try, ◌&>◌}

-- A command, behind the words that its error is wrapped in.
abbrev pub Step : Type 0
Step = String × String

-- The commands sent, newest first, once all steps have run.
abbrev pub sent : List Step → List String → List String
sent [] log = log
sent ((what, cmd) ∷ steps) log = sent steps (cmd ∷ log)

pub sent-append :
    (xs ys : List Step) (log : List String) → sent (xs ++ ys) log ≡ sent ys (sent xs log)
sent-append [] ys log = refl
sent-append ((what, cmd) ∷ xs) ys log = sent-append xs ys (cmd ∷ log)

module _ (server : Server) where
  unfoldable pub attempt : List Step → Ssh Error
  attempt [] = pure none
  attempt ((what, cmd) ∷ steps) = try server what cmd &> attempt steps

  -- Every command succeeds, each behind those before it.
  abbrev pub Succeed : List Step → List String → Type 0
  Succeed [] log = Unit
  Succeed ((what, cmd) ∷ steps) log = ((server log cmd).err ≡ none) × Succeed steps (cmd ∷ log)

  Succeed-attempt :
      (steps : List Step) (log : List String) → (attempt steps log).0 ≡ none → Succeed steps log
  unfolding attempt
  Succeed-attempt [] log h = tt
  Succeed-attempt ((what, cmd) ∷ steps) log h = elim (Option-cases (server log cmd).err) [
    | inl p ↦ (p, Succeed-attempt steps (cmd ∷ log) (ground (arith, h, p)))
    | inr (e, p) ↦ absurd (ground (arith, h, p))
  ]

  attempt-Succeed :
      (steps : List Step) (log : List String) → Succeed steps log → (attempt steps log).0 ≡ none
  unfolding attempt
  attempt-Succeed [] log h = refl
  attempt-Succeed ((what, cmd) ∷ steps) log (p, h) =
      ground (arith, p, attempt-Succeed steps (cmd ∷ log) h)

  pub attempt-none_iff :
      (steps : List Step) (log : List String) → ((attempt steps log).0 ≡ none) ↔ Succeed steps log
  attempt-none_iff steps log = (Succeed-attempt steps log, attempt-Succeed steps log)

  -- Where a run stopped: at which step, behind which ones that succeeded, with which reply.
  pub record Stopped (steps : List Step) (log : List String) (e : String) (end : List String)
      : Type 0 where
    pub before : List Step
    pub what : String
    pub cmd : String
    pub after : List Step
    pub cause : String
    pub split : steps ≡ before ++ (what, cmd) ∷ after
    pub passed : attempt before log ≡ (none, sent before log)
    pub failed : (server (sent before log) cmd).err ≡ some cause
    pub message : e ≡ what <> cause
    pub log_end : end ≡ cmd ∷ sent before log

  -- With no error every command was sent, in order.
  pub attempt_ok :
      (steps : List Step) (log : List String)
      → (attempt steps log).0 ≡ none
      → (attempt steps log).1 ≡ sent steps log
  unfolding attempt
  attempt_ok [] log h = refl
  attempt_ok ((what, cmd) ∷ steps) log h = ground (arith, attempt_ok steps (cmd ∷ log))

  Stopped-cons :
      (what cmd : String) (steps : List Step) (log : List String) {e : String} {end : List String}
      → (server log cmd).err ≡ none
      → Stopped steps (cmd ∷ log) e end
      → Stopped ((what, cmd) ∷ steps) log e end
  unfolding attempt
  Stopped-cons what cmd steps log h s = record {
    before = (what, cmd) ∷ s.before;
    what = s.what;
    cmd = s.cmd;
    after = s.after;
    cause = s.cause;
    split = ap (λ t. (what, cmd) ∷ t) s.split;
    passed = ground (arith, s.passed);
    failed = s.failed;
    message = s.message;
    log_end = s.log_end;
  }

  pub attempt-Stopped :
      (steps : List Step) (log : List String) {e : String}
      → (attempt steps log).0 ≡ some e
      → Stopped steps log e (attempt steps log).1
  unfolding attempt
  attempt-Stopped [] log h = absurd (ground arith)
  attempt-Stopped ((what, cmd) ∷ steps) log {e} h = elim (Option-cases (server log cmd).err) [
    | inl q ↦
        rw (q, ◌&>◌, try)
          (Stopped-cons what cmd steps log q (attempt-Stopped steps (cmd ∷ log) (ground arith)))
    | inr (c, q) ↦ record {
      before = [];
      what = what;
      cmd = cmd;
      after = steps;
      cause = c;
      split = refl;
      passed = refl;
      failed = q;
      message = ground arith;
      log_end = ground arith;
    }
  ]
