-- ===== src/Lib.antt =====
-- Ghost-Ship: an engine that provisions servers over SSH, audits them, and moves the state of one
-- server to another. This library models the Go code and proves what its parts promise.
--
-- The program and the files of this library:
--   pkg/sshutil             Ssh: the interface SSHRunner. A server is a function from the commands that
--                           were sent so far, newest first, and a command to its reply; a program's
--                           state is the list of commands sent. Ssh.Client is SSHClient. Ssh.Steps is
--                           the reference for code that sends a list of commands and stops at the
--                           first that fails.
--   internal/config         Config: the manifest, `Load`, `applyDefaults`, `validate`.
--   internal/provisioner    Provisioner: `RunFullProvisioning`; Hardening is `ApplyHardening`, Compose
--                           the text of the compose project, Services is `DeployServices`.
--   internal/extractor      Extractor: Restore is restore.go, Certs certs.go, Sqlite sqlite.go and State
--                           extractor.go, Stream transport.go and Stream.Stub transport_stub.go;
--                           Stream.Archive and Stream.RoundTrip are its entries without the bytes,
--                           Stream.Streamer clib/streamer.cpp: Compression the header of LZ4,
--                           Encryption the tag of AES-GCM, Wrapper the memory behind the C interface,
--                           Chunked the interface by chunks, Derivation the keys. Read holds what the
--                           extractions have in common, and Reads tells the commands that only show
--                           something. Restore.Frame says what putting a file leaves alone,
--                           Restore.Printed how a server prints a hash and a size; State.Files,
--                           State.Moved, State.Databases and State.Again what the files of a state
--                           become on another server.
--   internal/nomad          Nomad: Docker and Docker.Restore are docker.go, Jobs is nomad.go. Json holds
--                           decoded JSON as the code takes it apart.
--   cmd/gs/main.go          Cli: the arguments, `land` and `migrate`; Cli.Single is `extract` and
--                           `audit`, Cli.Report what `audit` prints, Cli.Dial the clients, Cli.Plain
--                           `extract` without the streamer. Cli.Phases is a migration as a machine: an
--                           indexed data type of steps, from the arguments to one of the ends.
--                           Cli.Tried is what a migration has asked of its target, Cli.Moved what
--                           the target has then, Cli.Land what a landing has done. Cli.Output is what
--                           the commands print, Cli.Reads what a migration asks of its source.
--   internal/mocks          Mocks: the scripted runner of the Go tests.
--   internal/audit          Audit: the checks and their grading; Telegram holds the messages.
-- Base has Go's vocabulary: strings, integers in decimal, maps, sort.Strings and path/filepath. Tests
-- runs the components and applies each theorem that has a hypothesis at concrete data.
--
-- How the parts interact: every component gets a server and nothing else of the connection. `gs land`
-- loads a manifest (Config) and provisions a server with it (Provisioner). `gs migrate` extracts the
-- state of one server (Extractor.State, with Nomad), provisions the other one and restores the state
-- there, each file by way of Extractor.Restore. `gs audit` runs the audit.
--
-- How the code is modelled. A Go string or byte slice is a text whose characters are its bytes, so
-- that `count` is `len`; white space is that of ASCII. An `error` is an optional message, and a
-- function that returns a value and an error has a result type. An early return is the operator
-- `&>`. A map is an association list; a range over a map takes the order of that list, and a
-- theorem that holds for all lists holds for all orders. The range over the literal map in
-- extractConfigs takes an order that is a parameter (Base.Order). Connecting takes the commands
-- that were sent so far, since the two addresses of a migration may be one host's. A panic is an
-- error with its message. A loop is a recursion on the list that it ranges over; printing in
-- decimal takes the number itself as its fuel, which exceeds the count of its digits. An int is an
-- integer without a bound: the code adds no sizes, and it divides them only as floats. Logging has
-- no effect on what is modelled and is left out.
--
-- What is a parameter: reading and parsing the manifest and the SSH key, dialling, SHA-256 and
-- base64, the clock and the order of that range (Runtime), the web service behind Telegram, the
-- decoding of JSON, floats (Base.Float), and for the stream tar, YAML, the random numbers and the
-- streamer in clib, which is C++; where a theorem needs the streamer itself, its two calls are
-- modelled, with LZ4 and the calls of OpenSSL as parameters. Who frees what they compute is in
-- Wrapper, and the other theorems leave it out. What a server does with a command is a parameter
-- too; where a theorem needs a server that keeps a file, the record that states it (HoldsFile,
-- HoldsCompose) names what each command does there; HoldsFiles says so of several files, and
-- PrintsFile gives the texts that sha256sum and stat print.
--
-- Not modelled: the inside of LZ4 and of AES-GCM; what the log says; the Go tests, of which Tests runs
-- some.
pub mod Base
pub mod Ssh
pub mod Config
pub mod Provisioner
pub mod Nomad
pub mod Extractor
pub mod Audit
pub mod Mocks
pub mod Cli
pub mod Tests
