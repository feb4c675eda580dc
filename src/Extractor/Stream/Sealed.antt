-- ===== src/Extractor/Stream/Sealed.antt =====
-- The Go code's stream over the C++ streamer.
use ghost_ship.Base.{
  ◌+◌, ◌^◌, ◌≤◌, ◌<◌, String, ◌<>◌, ◌≡◌, refl, inl, inr, false, Result, ok, err, ◌==◌, count, ltb,
  arith, Bool-cases, Result-cases, Option-cases, if◌then◌else◌, ap, ◌∙◌, sym,
}
use text.Mathlib.TextLemmas.{length-append}
use ghost_ship.Base.Text.{first_bytes, rest_bytes}
use ghost_ship.Base.Text.Split.{first_bytes-append, rest_bytes-append}
use ghost_ship.Extractor.State.{SystemState}
use ghost_ship.Extractor.Stream.{
  StreamState, TarWriter, TarReader, compress_and_encrypt, seal_archive, state_header, pack_files,
  pack_system_state, unpack_system_state,
}
use ghost_ship.Extractor.Stream.Streamer.{compress_encrypt, decrypt_decompress}
use ghost_ship.Extractor.Stream.Streamer.Compression.{
  Lz4, IsLz4, max_data_size, lz4_compress, lz4_decompress, lz4_decompress-lz4_compress,
}
use ghost_ship.Extractor.Stream.Streamer.Encryption.{
  Gcm, IsAead, IsCipher, aes_gcm_encrypt, aes_gcm_decrypt, aes_gcm-IsCipher,
}

module _ (lz4 : Lz4) (gcm : Gcm) (lz4_law : IsLz4 lz4) (aead : IsAead gcm) where
  abbrev pub compress : String → Result String
  compress = lz4_compress lz4

  abbrev pub seal : String → String → String → Result String
  seal = aes_gcm_encrypt gcm

  abbrev pub open_sealed : String → String → String → Result String
  open_sealed = aes_gcm_decrypt gcm

  cipher : IsCipher seal open_sealed
  cipher = aes_gcm-IsCipher gcm aead

  -- What was encrypted: a compressed text, sealed, behind the nonce.
  pub record Encrypted (content key nonce out : String) : Type 0 where
    pub compressed : String
    pub body : String
    pub was_compressed : compress content ≡ ok compressed
    pub was_sealed : seal compressed key nonce ≡ ok body
    pub is_out : out ≡ nonce <> body

  compress_encrypt-Encrypted :
      (content key nonce : String) {out : String}
      → compress_encrypt lz4 gcm content key nonce ≡ ok out
      → Encrypted content key nonce out
  unfolding compress_encrypt
  compress_encrypt-Encrypted content key nonce h = elim (Result-cases (compress content)) [
    | inr (e, p) ↦ absurd (ground (arith, h, p))
    | inl (c, p) ↦ elim (Result-cases (seal c key nonce)) [
      | inr (e, q) ↦ absurd (ground (arith, h, p, q))
      | inl (x, q) ↦ record {
        compressed = c;
        body = x;
        was_compressed = p;
        was_sealed = q;
        is_out = ground (arith, h, p, q);
      }
    ]
  ]

  -- A sealed text behind a nonce is opened with it.
  decrypt-nonce :
      (key nonce x : String)
      → count nonce ≡ 12
      → 16 ≤ count x
      → decrypt_decompress lz4 gcm (nonce <> x) key
        ≡ (elim (open_sealed x key nonce) [ err e ↦ err e | ok c ↦ lz4_decompress lz4 c ])
  unfolding decrypt_decompress
  decrypt-nonce key nonce x n long =
      let rest : rest_bytes 12 (nonce <> x) ≡ x =
        ap (λ k. rest_bytes k (nonce <> x)) (sym n) ∙ rest_bytes-append nonce x in
      let first : first_bytes 12 (nonce <> x) ≡ nonce =
        ap (λ k. first_bytes k (nonce <> x)) (sym n) ∙ first_bytes-append nonce x in
      let enough : ltb (count (nonce <> x)) 28 ≡ false =
        ground (arith, n, long, length-append nonce x) in
      rw (enough, if◌then◌else◌, rest, first) refl

  Encrypted-decrypts :
      (content key nonce out : String)
      → count nonce ≡ 12
      → count content < 2 ^ 32
      → Encrypted content key nonce out
      → decrypt_decompress lz4 gcm out key ≡ (
          if ltb max_data_size (count content)
          then err "LZ4: implausible original_len"
          else ok content)
  Encrypted-decrypts content key nonce out n small k =
      let opened = cipher.opens k.compressed key nonce k.body k.was_sealed in
      let long : 16 ≤ count k.body =
        omega (arith, cipher.tagged k.compressed key nonce k.body k.was_sealed) in
      rw (k.is_out) (
        decrypt-nonce key nonce k.body n long
        ∙ rw opened
            (lz4_decompress-lz4_compress lz4 lz4_law content k.compressed small k.was_compressed))

  -- Over a compression that is undone and an authenticated cipher, content of less than 2 ^ 32 bytes
  -- that the streamer has encrypted is decrypted with the same key to the content, if that has at most
  -- `MAX_DATA_SIZE` bytes; it is refused if it has more, although it was encrypted.
  pub decrypt_decompress-compress_encrypt :
      (content key nonce out : String)
      → count nonce ≡ 12
      → count content < 2 ^ 32
      → compress_encrypt lz4 gcm content key nonce ≡ ok out
      → decrypt_decompress lz4 gcm out key ≡ (
          if ltb max_data_size (count content)
          then err "LZ4: implausible original_len"
          else ok content)
  decrypt_decompress-compress_encrypt content key nonce out n small h =
      Encrypted-decrypts content key nonce out n small
        (compress_encrypt-Encrypted content key nonce h)

  module _ {W : Type 0} (tar : TarWriter W) (marshal : SystemState → Result String)
      (unmarshal : String → SystemState → Result SystemState) (read_tar : String → TarReader) where
    -- With a key and a nonce that could be drawn.
    abbrev pub pack : String → String → SystemState → Result StreamState
    pack key nonce = pack_system_state tar marshal (compress_encrypt lz4 gcm) (ok key) (ok nonce)

    abbrev pub unpack : SystemState → StreamState → Result SystemState
    unpack = unpack_system_state unmarshal read_tar (decrypt_decompress lz4 gcm)

    abbrev pub tar_of : String → SystemState → String
    tar_of yaml state =
        let head = state_header tar marshal (compress_encrypt lz4 gcm) yaml in
        tar.output (pack_files tar state (tar.write yaml (tar.write_header head tar.fresh).1).1)

    pub record Packed (key nonce : String) (state : SystemState) (stream : StreamState)
        : Type 0 where
      pub yaml : String
      pub described : marshal state ≡ ok yaml
      pub encrypted : Encrypted (tar_of yaml state) key nonce stream.content
      pub same_key : stream.key ≡ key
      pub same_nonce : stream.nonce ≡ nonce

    -- What the archive was sealed to.
    sealed-Packed :
        (key nonce yaml : String) (state : SystemState) {stream : StreamState}
        → marshal state ≡ ok yaml
        → seal_archive tar marshal
            (compress_encrypt lz4 gcm)
            (ok key)
            (ok nonce)
            (tar_of yaml state)
          ≡ ok stream
        → Packed key nonce state stream
    unfolding seal_archive compress_and_encrypt
    sealed-Packed key nonce yaml state {stream} p h =
        elim (Result-cases (compress_encrypt lz4 gcm (tar_of yaml state) key nonce)) [
          | inr (e, q) ↦ absurd (ground (arith, h, q))
          | inl (out, q) ↦ elim (Bool-cases (out == "")) [
            | inl r ↦ absurd (ground (arith, h, q, r))
            | inr r ↦
                let k = compress_encrypt-Encrypted (tar_of yaml state) key nonce q in
                record {
                  yaml = yaml;
                  described = p;
                  encrypted = record {
                    compressed = k.compressed;
                    body = k.body;
                    was_compressed = k.was_compressed;
                    was_sealed = k.was_sealed;
                    is_out = ground (arith, h, q, r, k.is_out);
                  };
                  same_key = ground (arith, h, q, r);
                  same_nonce = ground (arith, h, q, r);
                }
          ]
        ]

    pack-Packed :
        (key nonce : String) (state : SystemState) {stream : StreamState}
        → pack key nonce state ≡ ok stream
        → Packed key nonce state stream
    unfolding pack_system_state
    pack-Packed key nonce state {stream} h = elim (Result-cases (marshal state)) [
      | inr (e, p) ↦ absurd (ground (arith, h, p))
      | inl (yaml, p) ↦
          let head = state_header tar marshal (compress_encrypt lz4 gcm) yaml in
          let (refused, w) = tar.write_header head tar.fresh in
          elim (Option-cases refused) [
            | inr (e, q) ↦ absurd (ground (arith, h, p, q))
            | inl q ↦ elim (Option-cases (tar.write yaml w).0) [
              | inr (e, r) ↦ absurd (ground (arith, h, p, q, r))
              | inl r ↦ sealed-Packed key nonce yaml state p (ground (arith, h, p, q, r))
            ]
          ]
    ]

    unpack_sealed :
        (empty : SystemState) (stream : StreamState) {s : SystemState}
        → count stream.nonce ≡ 12
        → 16 ≤ count stream.content
        → unpack empty stream ≡ ok s
        → (c : String) × (seal c stream.key stream.nonce ≡ ok stream.content)
    unfolding unpack_system_state
    unpack_sealed empty stream n long h =
        let e = decrypt-nonce stream.key stream.nonce stream.content n long in
        elim (Result-cases (open_sealed stream.content stream.key stream.nonce)) [
          | inl (c, p) ↦ (c, cipher.sealed c stream.key stream.nonce stream.content p)
          | inr (x, p) ↦ absurd (ground (arith, h, e, p))
        ]

    -- The content of a packed stream holds the nonce already, as the streamer put it there: of an
    -- archive of less than 2 ^ 32 bytes that content alone decrypts with the stream's key to the
    -- archive if it has at most `MAX_DATA_SIZE` bytes, and to an error if it has more.
    pub decrypt_decompress-pack :
        (key nonce : String) (state : SystemState) (stream : StreamState)
        → count nonce ≡ 12
        → ((yaml : String) → marshal state ≡ ok yaml → count (tar_of yaml state) < 2 ^ 32)
        → pack key nonce state ≡ ok stream
        → (yaml : String) × (marshal state ≡ ok yaml)
          × (decrypt_decompress lz4 gcm stream.content stream.key ≡ (
              if ltb max_data_size (count (tar_of yaml state))
              then err "LZ4: implausible original_len"
              else ok (tar_of yaml state)))
    decrypt_decompress-pack key nonce state stream n small h =
        let k = pack-Packed key nonce state h in
        let d =
          Encrypted-decrypts (tar_of k.yaml state) key nonce stream.content n
            (small k.yaml k.described) k.encrypted in
        (k.yaml, k.described, ap (decrypt_decompress lz4 gcm stream.content) k.same_key ∙ d)

    -- What UnpackSystemState decrypts of a packed stream has the nonce in front of the content once
    -- more. With an authenticated cipher and a nonce of 12 bytes it gives a state only if there is a
    -- second text which is sealed, under the same key and nonce, to the whole content: the nonce and
    -- the body that the compressed archive was sealed to; the text is longer by 12 bytes than that.
    pub unpack_system_state-pack_system_state :
        (key nonce : String) (state empty s : SystemState) (stream : StreamState)
        → count nonce ≡ 12
        → pack key nonce state ≡ ok stream
        → unpack empty stream ≡ ok s
        → (first second body : String) × (seal first key nonce ≡ ok body)
          × (stream.content ≡ nonce <> body)
          × (seal second key nonce ≡ ok (nonce <> body))
          × (count second ≡ count first + 12)
    unpack_system_state-pack_system_state key nonce state empty s stream n h u =
        let k = pack-Packed key nonce state h in
        let b = k.encrypted in
        let tagged = cipher.tagged b.compressed key nonce b.body b.was_sealed in
        let whole = length-append nonce b.body in
        let long : 16 ≤ count stream.content = omega (arith, ap count b.is_out, whole, tagged) in
        let (c, p) = unpack_sealed empty stream (ap count k.same_nonce ∙ n) long u in
        let q : seal c key nonce ≡ ok (nonce <> b.body) =
          ap (λ x. seal c x nonce) (sym k.same_key)
          ∙ ap (seal c stream.key) (sym k.same_nonce)
          ∙ p
          ∙ ap ok b.is_out in
        (
          b.compressed,
          c,
          b.body,
          b.was_sealed,
          b.is_out,
          q,
          omega (arith, cipher.tagged c key nonce (nonce <> b.body) q, tagged, whole, n),
        )
