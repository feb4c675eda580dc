-- ===== src/Extractor/Stream/Streamer/Chunked.antt =====
-- clib/streamer.cpp: encryption and decryption of a text in chunks. The context of OpenSSL is a
-- parameter, and a call that fails is an exception, here an error.
use ghost_ship.Base.{
  String, Bool, true, false, ◌<>◌, ◌≡◌, ◌∙◌, inl, inr, Result, ok, err, List, [], ◌∷◌, arith,
  Result-cases,
}

-- What the code calls of OpenSSL on a context: to set the cipher with the length of the nonce, to set
-- the key and the nonce, to take a chunk, to end, and to read the tag.
pub record Cipher (C : Type 0) : Type 0 where
  pub encrypt_init : C → Result C
  pub set_key : String → String → C → Result C
  pub encrypt_update : String → C → Result (String × C)
  pub encrypt_end : C → Result (String × C)
  pub get_tag : C → Result String
  pub decrypt_init : C → Result C
  pub decrypt_update : String → C → Result (String × C)
  pub decrypt_end : C → Result (String × C)

pub record StreamerState (C : Type 0) : Type 0 where
  pub key : String
  pub context : C
  pub buffer : String

module _ {C : Type 0} (cipher : Cipher C) where
  unfoldable pub encrypt_begin : String → StreamerState C → Result (StreamerState C)
  encrypt_begin nonce s = elim (cipher.encrypt_init s.context) [
    | err e ↦ err e
    | ok c ↦ elim (cipher.set_key s.key nonce c) [
      | err e ↦ err e
      | ok c' ↦ ok (record s { context = c'; buffer = "" })
    ]
  ]

  -- What a call gives is put behind the buffer.
  abbrev pub buffered : StreamerState C → Result (String × C) → Result (StreamerState C)
  buffered s (err e) = err e
  buffered s (ok (out, c)) = ok (record s { context = c; buffer = s.buffer <> out })

  unfoldable pub encrypt_chunk : String → StreamerState C → Result (StreamerState C)
  encrypt_chunk chunk s = buffered s (cipher.encrypt_update chunk s.context)

  unfoldable pub encrypt_final : StreamerState C → Result (String × StreamerState C)
  encrypt_final s = elim (buffered s (cipher.encrypt_end s.context)) [
    | err e ↦ err e
    | ok s' ↦ elim (cipher.get_tag s'.context) [
      | err e ↦ err e
      | ok tag ↦ let whole = s'.buffer <> tag in ok (whole, record s' { buffer = whole })
    ]
  ]

  unfoldable pub decrypt_begin : StreamerState C → Result (StreamerState C)
  decrypt_begin s = elim (cipher.decrypt_init s.context) [
    | err e ↦ err e
    | ok c ↦ ok (record s { context = c; buffer = "" })
  ]

  unfoldable pub decrypt_chunk : String → StreamerState C → Result (StreamerState C)
  decrypt_chunk chunk s = buffered s (cipher.decrypt_update chunk s.context)

  unfoldable pub decrypt_final : StreamerState C → Result (String × StreamerState C)
  decrypt_final s = elim (buffered s (cipher.decrypt_end s.context)) [
    | err e ↦ err e
    | ok s' ↦ ok (s'.buffer, s')
  ]

  unfoldable pub decrypt_chunks : List String → StreamerState C → Result (StreamerState C)
  unfolding decrypt_chunk
  decrypt_chunks [] s = ok s
  decrypt_chunks (chunk ∷ chunks) s = elim (decrypt_chunk chunk s) [
    | err e ↦ err e
    | ok s' ↦ decrypt_chunks chunks s'
  ]

  -- A decryption ends only with the tag set: to set the cipher drops it, and a chunk leaves it as it
  -- is.
  pub record NeedsTag : Type 0 where
    pub has_tag : C → Bool
    pub dropped : (c c' : C) → cipher.decrypt_init c ≡ ok c' → has_tag c' ≡ false
    pub kept :
        (chunk out : String) (c c' : C)
        → cipher.decrypt_update chunk c ≡ ok (out, c')
        → has_tag c' ≡ has_tag c
    pub needed : (out : String) (c c' : C) → cipher.decrypt_end c ≡ ok (out, c') → has_tag c ≡ true

  begin_untagged :
      (law : NeedsTag) (s s' : StreamerState C)
      → decrypt_begin s ≡ ok s'
      → law.has_tag s'.context ≡ false
  unfolding decrypt_begin
  begin_untagged law s s' h = elim (Result-cases (cipher.decrypt_init s.context)) [
    | inr (e, p) ↦ absurd (ground (arith, h, p))
    | inl (c, p) ↦ ground (arith, h, p, law.dropped s.context c p)
  ]

  chunk_kept :
      (law : NeedsTag) (chunk : String) (s s' : StreamerState C)
      → decrypt_chunk chunk s ≡ ok s'
      → law.has_tag s'.context ≡ law.has_tag s.context
  unfolding decrypt_chunk
  chunk_kept law chunk s s' h = elim (Result-cases (cipher.decrypt_update chunk s.context)) [
    | inr (e, p) ↦ absurd (ground (arith, h, p))
    | inl ((out, c), p) ↦ ground (arith, h, p, law.kept chunk out s.context c p)
  ]

  chunks_kept :
      (law : NeedsTag) (chunks : List String) (s s' : StreamerState C)
      → decrypt_chunks chunks s ≡ ok s'
      → law.has_tag s'.context ≡ law.has_tag s.context
  unfolding decrypt_chunks
  chunks_kept law [] s s' h = ground (arith, h)
  chunks_kept law (chunk ∷ chunks) s s' h = elim (Result-cases (decrypt_chunk chunk s)) [
    | inr (e, p) ↦ absurd (ground (arith, h, p))
    | inl (next, p) ↦
        chunks_kept law chunks next s' (ground (arith, h, p)) ∙ chunk_kept law chunk s next p
  ]

  -- Where a decryption ends only with the tag set, no decryption in chunks succeeds: whatever chunks
  -- were taken behind its begin, its end is an error.
  pub decrypt_final-decrypt_chunks :
      (law : NeedsTag) (chunks : List String) (s begun taken : StreamerState C)
      → decrypt_begin s ≡ ok begun
      → decrypt_chunks chunks begun ≡ ok taken
      → (e : String) × (decrypt_final taken ≡ err e)
  unfolding decrypt_final
  decrypt_final-decrypt_chunks law chunks s begun taken b t =
      elim (Result-cases (cipher.decrypt_end taken.context)) [
        | inr (e, p) ↦ (e, ground (arith, p))
        | inl ((out, c), p) ↦
            let untagged = chunks_kept law chunks begun taken t ∙ begin_untagged law s begun b in
            absurd (ground (arith, untagged, law.needed out taken.context c p))
      ]
