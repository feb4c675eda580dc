-- ===== src/Extractor/Stream.antt =====
-- internal/extractor/transport.go: a state as an encrypted stream. The writer and the reader of tar
-- archives, YAML, the C++ streamer, the random numbers and base64 are parameters.
pub mod Archive
pub mod Laws
pub mod Stub
pub mod Streamer
pub mod Sealed
pub mod RoundTrip
use ghost_ship.Base.{
  ℕ, String, ◌<>◌, Error, Result, ok, err, none, some, List, [], ◌∷◌, ◌==◌, count, starts_with,
  if◌then◌else◌, eqb,
}
use ghost_ship.Base.Text.{trim_prefix}
use ghost_ship.Base.Dict.{Dict, insert}
use ghost_ship.Ssh.{Server, Ssh, try}
use ghost_ship.Extractor.State.{SystemState}

-- `tar.Header`
pub record Header : Type 0 where
  pub name : String
  pub mode : ℕ
  pub size : ℕ

-- What the code calls of a `tar.Writer`, whose states are a type W, and of the buffer below it.
pub record TarWriter (W : Type 0) : Type 0 where
  pub fresh : W
  pub write_header : Header → W → Error × W
  pub write : String → W → Error × W
  pub output : W → String

-- What a `tar.Reader` gives: entries with their contents, up to the end or to an error of `Next`.
pub data TarReader : Type 0 where
  at_end : TarReader
  broken : String → TarReader
  entry : String → Result String → TarReader → TarReader

-- No checksum is ever set.
pub record StreamState : Type 0 where
  pub content : String
  pub key : String
  pub nonce : String
  pub checksum : String
  pub size : ℕ

module _ {W : Type 0} (tar : TarWriter W) where
  -- One round of a loop over files: none where the header is refused, and a write that fails is only
  -- logged.
  unfoldable pub write_entry : String → ℕ → String → W → W
  write_entry name mode content w =
      let (refused, w') =
        tar.write_header (record { name = name; mode = mode; size = count content }) w in
      let (_, written) = tar.write content w' in elim refused [ some _ ↦ w' | none ↦ written ]

  -- The loop over a map. Modes are octal: 384 is 0600, and 420 is 0644.
  unfoldable pub write_entries : String → ℕ → Dict String → W → W
  unfolding write_entry
  write_entries prefix mode [] w = w
  write_entries prefix mode ((name, content) ∷ files) w =
      write_entries prefix mode files (write_entry (prefix <> "/" <> name) mode content w)

  abbrev pub add_to_tar : String → Dict String → W → W
  add_to_tar prefix = write_entries prefix 384

  -- The files behind STATE.yaml.
  unfoldable pub pack_files : SystemState → W → W
  unfolding write_entries
  pack_files state w =
      let w₁ = add_to_tar "certs" state.certificates w in
      let w₂ = add_to_tar "databases" state.databases w₁ in
      let w₃ = add_to_tar "configs" state.configs w₂ in
      write_entries "ssh_keys" 420 state.ssh_public_keys w₃

-- The map that an entry belongs to. No name starts with two of the prefixes, so that the order of
-- the range over them does not matter.
unfoldable pub place_file : String → String → SystemState → SystemState
place_file name content state =
    if starts_with name "certs/"
    then record state {
      certificates = insert (trim_prefix name "certs/") content state.certificates;
    }
    else if starts_with name "databases/"
    then record state { databases = insert (trim_prefix name "databases/") content state.databases }
    else if starts_with name "configs/"
    then record state { configs = insert (trim_prefix name "configs/") content state.configs }
    else if starts_with name "ssh_keys/"
    then record state {
      ssh_public_keys = insert (trim_prefix name "ssh_keys/") content state.ssh_public_keys;
    }
    else state

-- `CompressAndEncrypt`: `encrypt` is the call of `streamer_compress_encrypt` with the copy that
-- `GoBytes` makes of its result, so what it does to memory is part of the parameter. `&data[0]` panics
-- on empty data, which ends the program: an error here.
unfoldable pub compress_and_encrypt :
    (String → String → String → Result String) → String → String → String → Result String
compress_and_encrypt encrypt content key nonce =
    if content == ""
    then err "panic: index out of range [0] with length 0"
    else elim (encrypt content key nonce) [
      | err e ↦ err ("C++ error: " <> e)
      | ok out ↦ if out == "" then err "compression resulted in zero bytes" else ok out
    ]

module _ {W : Type 0} (tar : TarWriter W) (marshal : SystemState → Result String)
    (encrypt : String → String → String → Result String) where
  abbrev pub stream_of : String → String → String → String → StreamState
  stream_of archive key nonce out = record {
    content = out;
    key = key;
    nonce = nonce;
    checksum = "";
    size = count archive;
  }

  -- The archive is encrypted with a key and a nonce that are drawn at random.
  unfoldable pub seal_archive : Result String → Result String → String → Result StreamState
  seal_archive draw_key draw_nonce archive = elim draw_key [
    | err e ↦ err ("failed to generate encryption key: " <> e)
    | ok key ↦ elim draw_nonce [
      | err e ↦ err ("failed to generate nonce: " <> e)
      | ok nonce ↦ elim (compress_and_encrypt encrypt archive key nonce) [
        | err e ↦ err ("compression/encryption failed: " <> e)
        | ok out ↦ ok (stream_of archive key nonce out)
      ]
    ]
  ]

  abbrev pub state_header : String → Header
  state_header yaml = record { name = "STATE.yaml"; mode = 420; size = count yaml }

  -- The archive is the buffer's content before the deferred `Close` of the writer adds its end.
  unfoldable pub pack_system_state :
      Result String → Result String → SystemState → Result StreamState
  unfolding seal_archive pack_files
  pack_system_state draw_key draw_nonce state = elim (marshal state) [
    | err e ↦ err ("failed to marshal state: " <> e)
    | ok yaml ↦
        let (refused, w) = tar.write_header (state_header yaml) tar.fresh in
        let (unwritten, w') = tar.write yaml w in
        elim refused [
          | some e ↦ err ("failed to write tar header: " <> e)
          | none ↦ elim unwritten [
            | some e ↦ err ("failed to write state metadata: " <> e)
            | none ↦ seal_archive draw_key draw_nonce (tar.output (pack_files tar state w'))
          ]
        ]
  ]

module _ (unmarshal : String → SystemState → Result SystemState) (read_tar : String → TarReader)
    (decrypt : String → String → Result String) where
  -- The loop over the entries of the archive.
  unfoldable pub unpack_entries : TarReader → SystemState → Result SystemState
  unpack_entries at_end state = ok state
  unpack_entries (broken e) state = err ("tar read error: " <> e)
  unpack_entries (entry name (err e) entries) state =
      err ("failed to read tar entry " <> name <> ": " <> e)
  unpack_entries (entry name (ok content) entries) state =
      let placed = unpack_entries entries (place_file name content state) in
      let described = λ (s : SystemState). unpack_entries entries s in
      if name == "STATE.yaml"
      then elim (unmarshal content state) [
        | err e ↦ err ("failed to unmarshal state metadata: " <> e)
        | ok s ↦ described s
      ]
      else placed

  -- The nonce is put in front of the stream's content.
  unfoldable pub unpack_system_state : SystemState → StreamState → Result SystemState
  unfolding unpack_entries
  unpack_system_state empty stream = elim (decrypt (stream.nonce <> stream.content) stream.key) [
    | err e ↦ err ("C++ decryption error: " <> e)
    | ok archive ↦
        if archive == ""
        then err "decompressed data is empty"
        else unpack_entries (read_tar archive) empty
  ]

unfoldable pub transmit_state : Server → (String → String) → StreamState → String → Ssh Error
transmit_state server base64 stream path = try server "transmission failed: " (
    "echo '"
    <> base64 (stream.nonce <> stream.content)
    <> "' | base64 -d | sudo tee "
    <> path
    <> " > /dev/null")
