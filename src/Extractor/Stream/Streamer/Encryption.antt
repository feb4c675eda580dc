-- ===== src/Extractor/Stream/Streamer/Encryption.antt =====
-- clib/streamer.cpp: AES-256-GCM, with the tag behind the ciphertext. The calls of OpenSSL are
-- parameters.
use ghost_ship.Base.{
  ◌+◌, ◌-◌, String, ◌<>◌, ◌≡◌, refl, sym, ap, ◌∙◌, inl, inr, false, Result, ok, err, Result-cases,
  Bool-cases, count, ltb, eqb, if◌then◌else◌, arith,
}
use text.Mathlib.TextLemmas.{length-append}
use ghost_ship.Base.Text.{first_bytes, rest_bytes}
use ghost_ship.Base.Text.Split.{first_bytes-append, first_bytes-rest_bytes, rest_bytes-append}

-- The sequences of calls of OpenSSL: a text, a key and a nonce give a ciphertext and a tag, or the
-- message for the call that failed; and back.
pub record Gcm : Type 0 where
  pub encrypt : String → String → String → Result (String × String)
  pub decrypt : String → String → String → String → Result String

-- Authenticated encryption: what is encrypted is decrypted, with its tag of 16 bytes, and nothing
-- else is.
pub record IsAead (gcm : Gcm) : Type 0 where
  pub decrypted :
      (text key nonce c tag : String)
      → gcm.encrypt text key nonce ≡ ok (c, tag)
      → gcm.decrypt c tag key nonce ≡ ok text
  pub encrypted :
      (text key nonce c tag : String)
      → gcm.decrypt c tag key nonce ≡ ok text
      → gcm.encrypt text key nonce ≡ ok (c, tag)
  pub as_long :
      (text key nonce c tag : String)
      → gcm.encrypt text key nonce ≡ ok (c, tag)
      → (count c ≡ count text) × (count tag ≡ 16)

module _ (gcm : Gcm) where
  unfoldable pub aes_gcm_encrypt : String → String → String → Result String
  aes_gcm_encrypt text key nonce =
      if eqb (count key) 32
      then if eqb (count nonce) 12
        then elim (gcm.encrypt text key nonce) [ err e ↦ err e | ok (c, tag) ↦ ok (c <> tag) ]
        else err "nonce must be 12 bytes"
      else err "key must be 32 bytes"

  unfoldable pub aes_gcm_decrypt : String → String → String → Result String
  aes_gcm_decrypt sealed key nonce =
      let n = count sealed - 16 in
      if eqb (count key) 32
      then if eqb (count nonce) 12
        then if ltb (count sealed) 16
          then err "AES-GCM: ciphertext too short"
          else gcm.decrypt (first_bytes n sealed) (rest_bytes n sealed) key nonce
        else err "nonce must be 12 bytes"
      else err "key must be 32 bytes"

  -- What an encryption has put together.
  pub record Sealed (text key nonce x : String) : Type 0 where
    pub body : String
    pub tag : String
    pub key_size : count key ≡ 32
    pub nonce_size : count nonce ≡ 12
    pub was_encrypted : gcm.encrypt text key nonce ≡ ok (body, tag)
    pub is_sealed : x ≡ body <> tag

  pub aes_gcm_encrypt-Sealed :
      (text key nonce x : String) → aes_gcm_encrypt text key nonce ≡ ok x → Sealed text key nonce x
  unfolding aes_gcm_encrypt
  aes_gcm_encrypt-Sealed text key nonce x h = elim (Bool-cases (eqb (count key) 32)) [
    | inr k ↦ absurd (ground (arith, h, k))
    | inl k ↦ elim (Bool-cases (eqb (count nonce) 12)) [
      | inr n ↦ absurd (ground (arith, h, k, n))
      | inl n ↦ elim (Result-cases (gcm.encrypt text key nonce)) [
        | inr (e, p) ↦ absurd (ground (arith, h, k, n, p))
        | inl ((c, tag), p) ↦ record {
          body = c;
          tag = tag;
          key_size = ground (arith, k);
          nonce_size = ground (arith, n);
          was_encrypted = p;
          is_sealed = ground (arith, h, k, n, p);
        }
      ]
    ]
  ]

  -- The reverse: a text is sealed if the key and the nonce have their sizes.
  seals :
      (text key nonce x : String) → Sealed text key nonce x → aes_gcm_encrypt text key nonce ≡ ok x
  unfolding aes_gcm_encrypt
  seals text key nonce x s = ground (arith, s.key_size, s.nonce_size, s.was_encrypted, s.is_sealed)

  -- A sealed text of a tag of 16 bytes is taken apart where it was put together.
  decrypt_parts :
      (c tag key nonce : String)
      → count tag ≡ 16
      → count key ≡ 32
      → count nonce ≡ 12
      → aes_gcm_decrypt (c <> tag) key nonce ≡ gcm.decrypt c tag key nonce
  unfolding aes_gcm_decrypt
  decrypt_parts c tag key nonce t k n =
      let whole = length-append c tag in
      let long : ltb (count (c <> tag)) 16 ≡ false = ground (arith, whole, t) in
      let front : count (c <> tag) - 16 ≡ count c = omega (arith, whole, t) in
      rw (k, n, long, front, eqb, first_bytes-append c tag, rest_bytes-append c tag, if◌then◌else◌)
        refl

-- An authenticated cipher: what is sealed is opened, and nothing else is; a tag makes it longer.
pub record IsCipher (seal open_sealed : String → String → String → Result String) : Type 0 where
  pub opens : (c key nonce x : String) → seal c key nonce ≡ ok x → open_sealed x key nonce ≡ ok c
  pub sealed : (c key nonce x : String) → open_sealed x key nonce ≡ ok c → seal c key nonce ≡ ok x
  pub tagged : (c key nonce x : String) → seal c key nonce ≡ ok x → count x ≡ count c + 16

module _ (gcm : Gcm) (law : IsAead gcm) where
  opens :
      (text key nonce x : String)
      → aes_gcm_encrypt gcm text key nonce ≡ ok x
      → aes_gcm_decrypt gcm x key nonce ≡ ok text
  opens text key nonce x h =
      let s = aes_gcm_encrypt-Sealed gcm text key nonce x h in
      let sizes = law.as_long text key nonce s.body s.tag s.was_encrypted in
      ap (λ y. aes_gcm_decrypt gcm y key nonce) s.is_sealed
      ∙ decrypt_parts gcm s.body s.tag key nonce sizes.1 s.key_size s.nonce_size
      ∙ law.decrypted text key nonce s.body s.tag s.was_encrypted

  opened :
      (text key nonce x : String)
      → aes_gcm_decrypt gcm x key nonce ≡ ok text
      → Sealed gcm text key nonce x
  unfolding aes_gcm_decrypt
  opened text key nonce x h = elim (Bool-cases (eqb (count key) 32)) [
    | inr k ↦ absurd (ground (arith, h, k))
    | inl k ↦ elim (Bool-cases (eqb (count nonce) 12)) [
      | inr n ↦ absurd (ground (arith, h, k, n))
      | inl n ↦ elim (Bool-cases (ltb (count x) 16)) [
        | inl l ↦ absurd (ground (arith, h, k, n, l))
        | inr l ↦
            let m = count x - 16 in
            record {
              body = first_bytes m x;
              tag = rest_bytes m x;
              key_size = ground (arith, k);
              nonce_size = ground (arith, n);
              was_encrypted =
                  law.encrypted text key nonce (first_bytes m x) (rest_bytes m x)
                    (ground (arith, h, k, n, l));
              is_sealed = sym (first_bytes-rest_bytes m x);
            }
      ]
    ]
  ]

  tagged :
      (text key nonce x : String)
      → aes_gcm_encrypt gcm text key nonce ≡ ok x
      → count x ≡ count text + 16
  tagged text key nonce x h =
      let s = aes_gcm_encrypt-Sealed gcm text key nonce x h in
      let (c, t) = law.as_long text key nonce s.body s.tag s.was_encrypted in
      omega (arith, ap count s.is_sealed, length-append s.body s.tag, c, t)

  -- The two functions are an authenticated cipher if what they call is one.
  pub aes_gcm-IsCipher : IsCipher (aes_gcm_encrypt gcm) (aes_gcm_decrypt gcm)
  aes_gcm-IsCipher = record {
    opens = opens;
    sealed = λ text key nonce x h. seals gcm text key nonce x (opened text key nonce x h);
    tagged = tagged;
  }
