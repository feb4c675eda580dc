-- ===== src/Ssh/Client.antt =====
-- pkg/sshutil/runner.go: SSHClient. The file system and golang.org/x/crypto/ssh are parameters:
-- parsing a key, dialling, and of a connection the sessions that it opens and what a command prints
-- there, on both of its outputs. A session's end and a connection's are left to the library.
use ghost_ship.Base.{
  ℕ, String, ◌<>◌, ◌≡◌, ◌↔◌, inl, inr, Bool, true, Error, Result, ok, err, none, some, List, [],
  ◌∷◌, arith, Result-cases,
}
use ghost_ship.Base.Int.{ℤ}
use ghost_ship.Base.Decimal.{format_int}
use ghost_ship.Ssh.{Reply, Server}

-- The far end of a connection.
pub record Connection : Type 0 where
  pub new_session : List String → Error
  pub combined_output : List String → String → Reply

-- `ssh.ClientConfig`: no key of a host is refused.
pub record ClientConfig (Signer : Type 0) : Type 0 where
  pub user : String
  pub auth : List Signer
  pub ignore_host_key : Bool
  pub timeout_seconds : ℕ

-- `Run`, as a server. An output is returned beside the error.
unfoldable pub client_run : Connection → Server
client_run c log cmd = elim (c.new_session log) [
  | some e ↦ record { out = ""; err = some e }
  | none ↦
      let r = c.combined_output log cmd in
      elim r.err [
        | some e ↦ record { out = r.out; err = some ("command failed: " <> e) }
        | none ↦ record { out = r.out; err = none }
      ]
]

-- `Close`
unfoldable pub client_close : (Connection → Error) → Connection → Error
client_close close c = close c

module _ {Signer : Type 0} (read_file : String → Result String) (parse_key : String → Result Signer)
    (dial : String → ClientConfig Signer → Result Connection) where
  abbrev pub client_config : String → Signer → ClientConfig Signer
  client_config user signer = record {
    user = user;
    auth = signer ∷ [];
    ignore_host_key = true;
    timeout_seconds = 15;
  }

  abbrev pub address : String → ℤ → String
  address host port = host <> ":" <> format_int port

  unfoldable pub new_ssh_client : String → String → ℤ → String → Result Connection
  new_ssh_client user host port key_path = elim (read_file key_path) [
    | err e ↦ err ("unable to read private key: " <> e)
    | ok key ↦ elim (parse_key key) [
      | err e ↦ err ("unable to parse private key: " <> e)
      | ok signer ↦ elim (dial (address host port) (client_config user signer)) [
        | err e ↦ err ("failed to dial: " <> e)
        | ok c ↦ ok c
      ]
    ]
  ]

  -- How a connection came about.
  pub record Connected (user host : String) (port : ℤ) (key_path : String) (c : Connection)
      : Type 0 where
    pub key : String
    pub signer : Signer
    pub was_read : read_file key_path ≡ ok key
    pub was_parsed : parse_key key ≡ ok signer
    pub dialled : dial (address host port) (client_config user signer) ≡ ok c

  connected :
      (user host : String) (port : ℤ) (key_path : String) (c : Connection)
      → new_ssh_client user host port key_path ≡ ok c
      → Connected user host port key_path c
  unfolding new_ssh_client
  connected user host port key_path c h = elim (Result-cases (read_file key_path)) [
    | inr (e, p) ↦ absurd (ground (arith, h, p))
    | inl (key, p) ↦ elim (Result-cases (parse_key key)) [
      | inr (e, q) ↦ absurd (ground (arith, h, p, q))
      | inl (signer, q) ↦
          elim (Result-cases (dial (address host port) (client_config user signer))) [
            | inr (e, r) ↦ absurd (ground (arith, h, p, q, r))
            | inl (c', r) ↦ record {
              key = key;
              signer = signer;
              was_read = p;
              was_parsed = q;
              dialled = ground (arith, h, p, q, r);
            }
          ]
    ]
  ]

  -- A client is made exactly if its key is read and parsed and the address of the host and the port
  -- can be dialled as the user, with that key alone; and the client is that connection.
  pub new_ssh_client-ok_iff :
      (user host : String) (port : ℤ) (key_path : String) (c : Connection)
      → (new_ssh_client user host port key_path ≡ ok c) ↔ Connected user host port key_path c
  unfolding new_ssh_client
  new_ssh_client-ok_iff user host port key_path c = (
    connected user host port key_path c,
    λ k. ground (arith, k.was_read, k.was_parsed, k.dialled),
  )

-- A command returns no error exactly if a session was opened and the command succeeded in it; and
-- once a session was opened, its output is returned in either case.
pub client_run-none_iff :
    (c : Connection) (log : List String) (cmd : String)
    → (((client_run c log cmd).err ≡ none)
        ↔ ((c.new_session log ≡ none) × ((c.combined_output log cmd).err ≡ none)))
      × ((client_run c log cmd).out
          ≡ elim (c.new_session log) [ some _ ↦ "" | none ↦ (c.combined_output log cmd).out ])
unfolding client_run
client_run-none_iff c log cmd =
    ((λ h. (ground arith, ground arith), λ (p, q). ground (arith, p, q)), ground arith)
