-- ===== src/Ssh.antt =====
-- pkg/sshutil: the interface SSHRunner. A server is what the far end does: its reply to a command
-- after the commands that it has run before, newest first, so that a program has the commands it
-- sent as its state. `Run` returns an output beside its error.
pub mod Steps
pub mod Client
use mathlib.Core.Option
use ghost_ship.Base.{String, ◌<>◌, Error, Option, none, some, List, [], ◌∷◌}

pub record Reply : Type 0 where
  pub out : String
  pub err : Error

abbrev pub Server : Type 0
Server = List String → String → Reply

-- A program that talks to one server: the commands sent before, and those sent after it.
abbrev pub Ssh {ℓ} : Type ℓ → Type ℓ
Ssh A = List String → A × List String

abbrev pub pure {ℓ} : {A : Type ℓ} → A → Ssh A
pure a log = (a, log)

infixl 5 ◌>>=◌ ◌>>◌
abbrev pub ◌>>=◌ {ℓ κ} : {A : Type ℓ} {B : Type κ} → Ssh A → (A → Ssh B) → Ssh B
◌>>=◌ m f log = let (a, log') = m log in f a log'

abbrev pub ◌>>◌ {ℓ κ} : {A : Type ℓ} {B : Type κ} → Ssh A → Ssh B → Ssh B
m >> k = m >>= λ _. k

module _ (server : Server) where
  -- `client.Run(cmd)`
  abbrev pub run : String → Ssh Reply
  run cmd log = (server log cmd, cmd ∷ log)

  -- `if _, err := client.Run(cmd); err != nil { return fmt.Errorf(what + "%w", err) }`
  abbrev pub try : String → String → Ssh Error
  try what cmd log = (Option.map (λ e. what <> e) (server log cmd).err, cmd ∷ log)

-- A step that may return early, and what follows it.
infixr 4 ◌&>◌
abbrev pub ◌&>◌ : Ssh Error → Ssh Error → Ssh Error
(m &> k) log = let (e, log') = m log in elim e [ none ↦ k log' | some x ↦ (some x, log') ]

-- `if err := m; err != nil { return fmt.Errorf(what + "%w", err) }`
abbrev pub wrap : String → Ssh Error → Ssh Error
wrap what m log = let (e, log') = m log in (Option.map (λ x. what <> x) e, log')
