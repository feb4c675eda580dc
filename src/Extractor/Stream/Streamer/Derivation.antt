-- ===== src/Extractor/Stream/Streamer/Derivation.antt =====
-- clib/streamer.cpp: `KeyDeriver`. PBKDF2 and the random bytes of OpenSSL are parameters.
use ghost_ship.Base.{ℕ, String, Result, ok, err, Option, none, some}
use ghost_ship.Base.Int.{ℤ, pos, negsuc}

-- Of a passphrase and a salt, with 100000 rounds, a key of 32 bytes, and 0; or -1.
unfoldable pub derive_pbkdf2 :
    (String → String → ℕ → ℕ → Option String) → String → String → ℤ × Option String
derive_pbkdf2 pbkdf2_sha256 passphrase salt = elim (pbkdf2_sha256 passphrase salt 100000 32) [
  | none ↦ (negsuc 0, none)
  | some key ↦ (pos 0, some key)
]

unfoldable pub generate_salt : (ℕ → Option String) → ℕ → Result String
generate_salt random_bytes len = elim (random_bytes len) [
  | none ↦ err "RAND_bytes failed"
  | some salt ↦ ok salt
]
