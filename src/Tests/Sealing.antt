-- ===== src/Tests/Sealing.antt =====
-- A stream over a cipher that puts a tag in front.
use ghost_ship.Base.{
  ◌+◌, some, none, leb, eq_iff, String, ◌<>◌, ◌≡◌, refl, sym, ap, inl, inr, Result, ok, err, [],
  ◌∷◌, count, arith, Bool-cases, if◌then◌else◌, ◌==◌,
}
use ghost_ship.Base.Text.{first_bytes, rest_bytes, trim_prefix}
use ghost_ship.Base.Dict.{insert}
use ghost_ship.Extractor.State.{SystemState}
use ghost_ship.Extractor.Stream.{
  StreamState, pack_files, place_file, compress_and_encrypt, pack_system_state, unpack_system_state,
  unpack_entries,
}
use ghost_ship.Extractor.Stream.Streamer.{compress_encrypt, decrypt_decompress}
use ghost_ship.Extractor.Stream.Archive.{listing, files_listed}
use ghost_ship.Extractor.Stream.Streamer.Compression.{
  write_u32_be, Lz4, IsLz4, lz4_compress, lz4_decompress,
}
use ghost_ship.Extractor.Stream.Streamer.Encryption.{Gcm, IsAead, aes_gcm_encrypt, aes_gcm_decrypt}
use ghost_ship.Extractor.Stream.Streamer.Wrapper.{
  Heap, Dangles, streamer_compress_encrypt, streamer_compress_encrypt-Dangles,
}
use ghost_ship.Extractor.Stream.Sealed.{
  pack, unpack, decrypt_decompress-compress_encrypt, unpack_system_state-pack_system_state,
}
use ghost_ship.Extractor.Stream.RoundTrip.{packed as filled, unpack_entries-pack_files}
use ghost_ship.Extractor.Stream.Laws.{completed}
use ghost_ship.Tests.Moving.{state, unmarshal}
use ghost_ship.Tests.Archiving.{writer, writer_laws, read_tar, encode_all}

abbrev tag : String
tag = "aaaaaaaaaaaaaaaa"

-- A cipher that leaves the text as it is, and a compression that does.
abbrev plain : Gcm
plain = record {
  encrypt = λ text key nonce. ok (text, tag);
  decrypt = λ c t key nonce. if t == tag then ok c else err "authentication tag mismatch";
}

abbrev stored : Lz4
stored = record {
  compress_default = λ text. some text;
  decompress_safe = λ c room. if leb (count c) room then some c else none;
}

stored-IsLz4 : IsLz4 stored
stored-IsLz4 = record { undone = λ text c h. ground (arith, h) }

-- What was encrypted is the text, with the one tag.
parts :
    {text c t : String}
    → ◌≡◌ {A = Result (String × String)} (ok (text, tag)) (ok (c, t))
    → (text ≡ c) × (tag ≡ t)
parts {text} h =
    let first : Result (String × String) → String = λ r. elim r [ err e ↦ e | ok (x, y) ↦ x ] in
    let second : Result (String × String) → String = λ r. elim r [ err e ↦ e | ok (x, y) ↦ y ] in
    (ap first h, ap second h)

plain-IsAead : IsAead plain
plain-IsAead = record {
  decrypted = λ text key nonce c t h. let (p, q) = parts h in rw (sym p, sym q) refl;
  encrypted = λ text key nonce c t h. elim (Bool-cases (t == tag)) [
    | inl p ↦ ground (arith, h, p, (eq_iff t tag).0 p)
    | inr p ↦ absurd (ground (arith, h, p))
  ];
  as_long = λ text key nonce c t h. let (p, q) = parts h in (ap count (sym p), ap count (sym q));
}

abbrev key : String
key = "kkkkkkkkkkkkkkkkkkkkkkkkkkkkkkkk"

abbrev nonce : String
nonce = "\0\u{1}\0\0aaaaaaaa"

abbrev marshal : SystemState → Result String
marshal s = ok "{}"

abbrev archive : String
archive = encode_all (("STATE.yaml", "{}") ∷ files_listed state)

abbrev text : String
text = write_u32_be (count archive) <> archive

abbrev stream : StreamState
stream = record {
  content = nonce <> (text <> tag);
  key = key;
  nonce = nonce;
  checksum = "";
  size = count archive;
}

abbrev plain_decrypt : String → String → Result String
plain_decrypt = decrypt_decompress stored plain

packed :
    pack stored plain stored-IsLz4 plain-IsAead writer marshal unmarshal read_tar key nonce state
    ≡ ok stream
unfolding pack_system_state compress_and_encrypt compress_encrypt lz4_compress aes_gcm_encrypt
    encode_all
packed = refl

unpacked :
    unpack stored plain stored-IsLz4 plain-IsAead writer marshal unmarshal read_tar state stream
    ≡ ok state
unfolding unpack_system_state decrypt_decompress aes_gcm_decrypt lz4_decompress first_bytes
    rest_bytes unpack_entries read_tar encode_all write_u32_be place_file insert trim_prefix
unpacked = refl

unpack_system_state-pack_system_state_example :
    (first : String) × (second : String) × (body : String) × (aes_gcm_encrypt plain first key nonce
      ≡ ok body)
    × (stream.content ≡ nonce <> body)
    × (aes_gcm_encrypt plain second key nonce ≡ ok (nonce <> body))
    × (count second ≡ count first + 12)
unpack_system_state-pack_system_state_example =
    unpack_system_state-pack_system_state stored plain stored-IsLz4 plain-IsAead writer marshal
      unmarshal read_tar key nonce state state state stream refl packed unpacked

unpack_entries-pack_files_example :
    unpack_entries unmarshal read_tar plain_decrypt
      (listing
        (writer_laws.holds (filled writer writer_laws unmarshal read_tar plain_decrypt "{}" state)))
      state
    ≡ ok (completed unmarshal read_tar plain_decrypt state state)
unfolding writer_laws pack_files
unpack_entries-pack_files_example =
    unpack_entries-pack_files writer writer_laws unmarshal read_tar plain_decrypt "{}" state state
      state refl (refl, (refl, (refl, (refl, tt))))

encrypted : compress_encrypt stored plain archive key nonce ≡ ok stream.content
unfolding encode_all compress_encrypt lz4_compress aes_gcm_encrypt
encrypted = refl

decrypt_decompress-compress_encrypt_example :
    decrypt_decompress stored plain stream.content key ≡ ok archive
unfolding encode_all
decrypt_decompress-compress_encrypt_example =
    decrypt_decompress-compress_encrypt stored plain stored-IsLz4 plain-IsAead archive key nonce
      stream.content refl (omega arith) encrypted

-- A heap with one block.
abbrev heap : Heap
heap = record { next = 7; blocks = (3, "STATE.yaml") ∷ [] }

streamer_compress_encrypt-Dangles_example :
    Dangles stream.content (streamer_compress_encrypt stored plain archive key nonce heap)
streamer_compress_encrypt-Dangles_example =
    streamer_compress_encrypt-Dangles stored plain archive key nonce stream.content heap
      (omega arith, tt) encrypted
