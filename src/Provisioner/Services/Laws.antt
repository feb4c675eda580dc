-- ===== src/Provisioner/Services/Laws.antt =====
-- When a deployment writes the compose file, and that a second one does not.
use mathlib.Core.Path.{subst}
use ghost_ship.Base.{
  String, ◌<>◌, ◌≡◌, refl, false, Error, ok, err, none, some, List, [], ◌∷◌, arith, contains, ◌==◌,
  eq_iff, if◌then◌else◌, Bool-cases, inl, inr, ap, ◌∙◌, sym, eq_refl,
}
use ghost_ship.Base.Text.{trim_space, split, newline}
use ghost_ship.Base.Text.Laws.{trim_space-newline}
use ghost_ship.Config.{ServiceSpec}
use ghost_ship.Ssh.{Server}
use ghost_ship.Provisioner.Compose.{build_compose_project}
use ghost_ship.Provisioner.Services.{
  compose_path, mkdir_command, heredoc, read_command, up_command, start_project, deploy_services,
}

-- The text that the server shows for the compose file, once the directory has been made.
abbrev pub shown : Server → List String → String
shown server log = (server (mkdir_command ∷ log) (read_command compose_path)).out

-- The commands up to the one that starts the project.
abbrev pub update_commands : Server → String → List String → List String
update_commands server text log =
    let asked = read_command compose_path ∷ mkdir_command ∷ log in
    if trim_space (shown server log) == trim_space text
    then asked
    else heredoc compose_path text ∷ asked

module _ (server : Server) where
  -- A deployment that succeeds makes the directory, reads the compose file, writes it exactly when
  -- it differs in more than outer white space, and then starts the project with its arguments.
  pub start_project_commands :
      (text : String) (args log : List String)
      → (start_project server (text, args) log).0 ≡ none
      → (start_project server (text, args) log).1
        ≡ up_command args ∷ update_commands server text log
  unfolding start_project
  start_project_commands text args log h = ground arith

  pub deploy_services_built :
      (s : ServiceSpec) (ss : List ServiceSpec) {project : String × List String}
      → build_compose_project (s ∷ ss) ≡ ok project
      → (log : List String) → deploy_services server (s ∷ ss) log ≡ start_project server project log
  unfolding deploy_services
  deploy_services_built s ss built log = rw (built, deploy_services) refl

  -- If the project of some services is refused, their deployment returns that error and sends no
  -- command.
  pub deploy_services_refused :
      (ss : List ServiceSpec) (log : List String) {e : String}
      → build_compose_project ss ≡ err e
      → deploy_services server ss log ≡ (some e, log)
  unfolding deploy_services build_compose_project
  deploy_services_refused [] log h = cc
  deploy_services_refused (s ∷ ss) log h = ground arith

-- A server that keeps the compose file, over the deployments of one project: what `cat` prints for
-- the file after the commands so far, which is the empty text where there is none. The project's
-- text is taken whole by the here-document, so it has no line `EOF`.
pub record HoldsCompose (server : Server) (text : String) (args : List String) : Type 0 where
  pub content : List String → String
  pub reads :
      (log : List String)
      → (server log (read_command compose_path)).err ≡ none
      → (server log (read_command compose_path)).out ≡ content log
  pub no_end : contains (split newline text) "EOF" ≡ false
  pub after_write :
      (log : List String)
      → (server log (heredoc compose_path text)).err ≡ none
      → content (heredoc compose_path text ∷ log) ≡ text <> "\n"
  pub after_read : (log : List String) → content (read_command compose_path ∷ log) ≡ content log
  pub after_mkdir : (log : List String) → content (mkdir_command ∷ log) ≡ content log
  pub after_up : (log : List String) → content (up_command args ∷ log) ≡ content log

module _ (server : Server) (text : String) (args : List String)
    (H : HoldsCompose server text args) where
  -- What was read is what the file held.
  shown-content :
      (log : List String)
      → (start_project server (text, args) log).0 ≡ none
      → shown server log ≡ H.content log
  unfolding start_project
  shown-content log h = H.reads (mkdir_command ∷ log) (ground arith) ∙ H.after_mkdir log

  -- After a deployment the file has the text of the project, up to outer white space.
  content-start_project :
      (log : List String)
      → (start_project server (text, args) log).0 ≡ none
      → trim_space (H.content (start_project server (text, args) log).1) ≡ trim_space text
  unfolding start_project
  content-start_project log h =
      elim (Bool-cases (trim_space (shown server log) == trim_space text)) [
        | inl same ↦
            rw
              (
                start_project_commands server text args log h,
                same,
                H.after_up,
                H.after_read,
                H.after_mkdir,
                ← shown-content log h,
              )
              ((eq_iff _ _).0 same)
        | inr differs ↦
            rw
              (
                start_project_commands server text args log h,
                differs,
                H.after_up,
                H.after_write (read_command compose_path ∷ mkdir_command ∷ log) (ground arith),
              )
              (trim_space-newline text)
      ]

  start_project_twice :
      (log : List String)
      → (start_project server (text, args) log).0 ≡ none
      → let log' = (start_project server (text, args) log).1 in
        (start_project server (text, args) log').0 ≡ none
        → (start_project server (text, args) log').1
          ≡ up_command args ∷ read_command compose_path ∷ mkdir_command ∷ log'
  start_project_twice log h k =
      let log' : List String = (start_project server (text, args) log).1 in
      let same : trim_space (shown server log') ≡ trim_space text =
        ap trim_space (shown-content log' k) ∙ content-start_project log h in
      start_project_commands server text args log' k ∙ rw (same, eq_refl (trim_space text)) refl

  -- On a server that keeps the compose file, of two deployments in a row of the same services that
  -- both succeed the second sends no write: the directory is made, the file is read, and the
  -- project is started again.
  pub deploy_services_twice :
      (s : ServiceSpec) (ss : List ServiceSpec) (log : List String) {log' log'' : List String}
      → build_compose_project (s ∷ ss) ≡ ok (text, args)
      → deploy_services server (s ∷ ss) log ≡ (none, log')
      → deploy_services server (s ∷ ss) log' ≡ (none, log'')
      → log'' ≡ up_command args ∷ read_command compose_path ∷ mkdir_command ∷ log'
  unfolding deploy_services
  deploy_services_twice s ss log {log'} {log''} built first second =
      let one = sym (deploy_services_built server s ss built log) ∙ first in
      let two = sym (deploy_services_built server s ss built log') ∙ second in
      let done : (start_project server (text, args) log).0 ≡ none =
        ap (λ (r : Error × List String). r.0) one in
      let end : (start_project server (text, args) log).1 ≡ log' =
        ap (λ (r : Error × List String). r.1) one in
      sym (ap (λ (r : Error × List String). r.1) two)
      ∙ subst
          (λ l.
            (start_project server (text, args) l).0 ≡ none
            → (start_project server (text, args) l).1
              ≡ up_command args ∷ read_command compose_path ∷ mkdir_command ∷ l)
          end (start_project_twice log done) (ap (λ (r : Error × List String). r.0) two)
