-- ===== src/Extractor/Stream/Stub.antt =====
-- internal/extractor/transport_stub.go: the stream of a build without the tag cgo_streamer.
use ghost_ship.Base.{ℕ, zero, suc, String, ◌<>◌, Result, ok, err}
use ghost_ship.Extractor.State.{SystemState}
use ghost_ship.Extractor.Stream.{StreamState}

abbrev pub zeros : ℕ → String
zeros zero = ""
zeros (suc n) = "\0" <> zeros n

unfoldable pub compress_and_encrypt : String → String → String → Result String
compress_and_encrypt content key nonce = err "cgo streamer disabled"

-- An array of 32 bytes and one of 12 that were not set.
abbrev pub empty_stream : StreamState
empty_stream = record { content = ""; key = zeros 32; nonce = zeros 12; checksum = ""; size = 0 }

unfoldable pub pack_system_state : SystemState → Result StreamState
pack_system_state state = ok empty_stream
