-- ===== src/Extractor/Stream/Streamer/Compression.antt =====
-- clib/streamer.cpp: the compression, with the length of the text in front. LZ4 itself is a parameter.
use Prim.Native.Char.{code}
use Prim.Native.String.{[], ◌∷◌}
use ghost_ship.Base.{
  ℕ, ◌+◌, ◌*◌, ◌/◌, ◌%◌, ◌^◌, ◌<◌, String, ◌<>◌, ◌≡◌, refl, sym, ap, ◌∙◌, inl, inr, false, Result,
  Option-cases, ok, err, Option, none, some, count, ltb, if◌then◌else◌, arith,
}
use text.Mathlib.TextLemmas.{cons-append, length-cons, length-append}
use ghost_ship.Base.Bytes.{byte}
use ghost_ship.Base.Text.{rest_bytes}
use ghost_ship.Base.Text.Split.{rest_bytes-append}

-- What the code calls of LZ4: `LZ4_compress_default` with the room of `LZ4_compressBound`, and
-- `LZ4_decompress_safe` with room for some bytes. There is no text where the result is an error's.
pub record Lz4 : Type 0 where
  pub compress_default : String → Option String
  pub decompress_safe : String → ℕ → Option String

-- What is compressed is decompressed where there is room for it.
pub record IsLz4 (lz4 : Lz4) : Type 0 where
  pub undone :
      (text c : String)
      → lz4.compress_default text ≡ some c
      → lz4.decompress_safe c (count text) ≡ some text

abbrev pub max_data_size : ℕ
max_data_size = 256 * 1024 * 1024

-- The argument is a `uint32_t`, to which the code casts a size.
unfoldable pub write_u32_be : ℕ → String
unfolding byte
write_u32_be n = byte (n / 2 ^ 24) ∷ byte (n / 2 ^ 16) ∷ byte (n / 2 ^ 8) ∷ byte n ∷ []

unfoldable pub read_u32_be : String → ℕ
read_u32_be (a ∷ b ∷ c ∷ d ∷ s) = code a * 2 ^ 24 + code b * 2 ^ 16 + code c * 2 ^ 8 + code d
read_u32_be _ = 0

module _ (lz4 : Lz4) where
  unfoldable pub lz4_compress : String → Result String
  unfolding write_u32_be
  lz4_compress src = elim (lz4.compress_default src) [
    | none ↦ err "LZ4 compression failed"
    | some c ↦ ok (write_u32_be (count src % 2 ^ 32) <> c)
  ]

  unfoldable pub lz4_decompress : String → Result String
  unfolding read_u32_be
  lz4_decompress src =
      if ltb (count src) 4
      then err "LZ4: too short"
      else if ltb max_data_size (read_u32_be src)
      then err "LZ4: implausible original_len"
      else elim (lz4.decompress_safe (rest_bytes 4 src) (read_u32_be src)) [
        | none ↦ err "LZ4 decompression failed"
        | some text ↦ ok text
      ]

-- A number of 32 bits is read as it was written, whatever follows.
pub read_u32_be-write_u32_be : (n : ℕ) (s : String) → read_u32_be (write_u32_be n <> s) ≡ n % 2 ^ 32
unfolding read_u32_be write_u32_be byte
read_u32_be-write_u32_be n s =
    rw
      (
        cons-append (byte (n / 2 ^ 24)) (byte (n / 2 ^ 16) ∷ byte (n / 2 ^ 8) ∷ byte n ∷ []) s,
        cons-append (byte (n / 2 ^ 16)) (byte (n / 2 ^ 8) ∷ byte n ∷ []) s,
        cons-append (byte (n / 2 ^ 8)) (byte n ∷ []) s,
        cons-append (byte n) [] s,
      )
      (omega arith)

count-write_u32_be : (n : ℕ) → count (write_u32_be n) ≡ 4
unfolding write_u32_be
count-write_u32_be n = ground (
  arith,
  length-cons (byte (n / 2 ^ 24)) (byte (n / 2 ^ 16) ∷ byte (n / 2 ^ 8) ∷ byte n ∷ []),
  length-cons (byte (n / 2 ^ 16)) (byte (n / 2 ^ 8) ∷ byte n ∷ []),
  length-cons (byte (n / 2 ^ 8)) (byte n ∷ []),
  length-cons (byte n) [],
)

module _ (lz4 : Lz4) where
  -- What lies behind a length is decompressed with that length.
  decompress_behind :
      (n : ℕ) (c : String)
      → lz4_decompress lz4 (write_u32_be n <> c) ≡ (
          if ltb max_data_size (n % 2 ^ 32)
          then err "LZ4: implausible original_len"
          else elim (lz4.decompress_safe c (n % 2 ^ 32)) [
            | none ↦ err "LZ4 decompression failed"
            | some text ↦ ok text
          ])
  unfolding lz4_decompress
  decompress_behind n c =
      let four = count-write_u32_be n in
      let behind : rest_bytes 4 (write_u32_be n <> c) ≡ c =
        ap (λ k. rest_bytes k (write_u32_be n <> c)) (sym four)
        ∙ rest_bytes-append (write_u32_be n) c in
      let enough : ltb (count (write_u32_be n <> c)) 4 ≡ false =
        ground (arith, four, length-append (write_u32_be n) c) in
      rw (enough, if◌then◌else◌, behind, read_u32_be-write_u32_be n c) refl

  -- A text that was compressed, of less than 2 ^ 32 bytes, is decompressed if it has at most
  -- `MAX_DATA_SIZE` bytes, and refused if it has more.
  pub lz4_decompress-lz4_compress :
      IsLz4 lz4
      → (text c : String) → count text < 2 ^ 32
      → lz4_compress lz4 text ≡ ok c
      → lz4_decompress lz4 c
        ≡ (if ltb max_data_size (count text) then err "LZ4: implausible original_len" else ok text)
  unfolding lz4_compress
  lz4_decompress-lz4_compress law text c small h = elim (Option-cases (lz4.compress_default text)) [
    | inl p ↦ absurd (ground (arith, h, p))
    | inr (b, p) ↦
        let n = count text % 2 ^ 32 in
        let same : n % 2 ^ 32 ≡ count text = omega (arith, small) in
        let is_c : c ≡ write_u32_be n <> b = ground (arith, h, p) in
        rw is_c (decompress_behind n b ∙ rw (same, law.undone text b p) refl)
  ]
