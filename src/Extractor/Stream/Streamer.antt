-- ===== src/Extractor/Stream/Streamer.antt =====
-- clib/streamer.cpp: the two calls that the Go code makes of the C++ streamer. An exception becomes the
-- error of the result.
pub mod Compression
pub mod Encryption
pub mod Wrapper
pub mod Chunked
pub mod Derivation
use ghost_ship.Base.{ℕ, ◌+◌, String, ◌<>◌, Result, ok, err, count, ltb, if◌then◌else◌}
use ghost_ship.Base.Text.{first_bytes, rest_bytes}
use Compression.{Lz4, lz4_compress, lz4_decompress}
use Encryption.{Gcm, aes_gcm_encrypt, aes_gcm_decrypt}

abbrev pub nonce_size : ℕ
nonce_size = 12

abbrev pub tag_size : ℕ
tag_size = 16

module _ (lz4 : Lz4) (gcm : Gcm) where
  -- `Streamer::compress_encrypt`: the nonce is put in front of what is encrypted.
  unfoldable pub compress_encrypt : String → String → String → Result String
  compress_encrypt content key nonce = elim (lz4_compress lz4 content) [
    | err e ↦ err e
    | ok c ↦ elim (aes_gcm_encrypt gcm c key nonce) [ err e ↦ err e | ok x ↦ ok (nonce <> x) ]
  ]

  -- `Streamer::decrypt_decompress`: the nonce is taken from the front of the input.
  unfoldable pub decrypt_decompress : String → String → Result String
  decrypt_decompress src key =
      if ltb (count src) (nonce_size + tag_size)
      then err "input too short"
      else elim (aes_gcm_decrypt gcm (rest_bytes nonce_size src) key (first_bytes nonce_size src)) [
        | err e ↦ err e
        | ok c ↦ lz4_decompress lz4 c
      ]
