-- ===== src/Extractor/Stream/Streamer/Wrapper.antt =====
-- clib/streamer.hpp and clib/streamer.cpp: who owns the bytes of a result. The wrappers for C hand on
-- a pointer that the C++ result owns. An allocation is taken to succeed.
use ghost_ship.Base.{
  ℕ, ◌+◌, ◌<◌, String, ◌≡◌, refl, Result, ok, err, Option, none, some, List, [], ◌∷◌, All, count,
  eqb, if◌then◌else◌, arith,
}
use ghost_ship.Base.Text.{first_bytes}
use ghost_ship.Extractor.Stream.Streamer.{compress_encrypt, decrypt_decompress}
use ghost_ship.Extractor.Stream.Streamer.Compression.{Lz4}
use ghost_ship.Extractor.Stream.Streamer.Encryption.{Gcm}

-- The blocks that were allocated and not freed, by their addresses.
pub record Heap : Type 0 where
  pub next : ℕ
  pub blocks : List (ℕ × String)

abbrev pub malloc : String → Heap → ℕ × Heap
malloc content heap =
    (heap.next, record { next = heap.next + 1; blocks = (heap.next, content) ∷ heap.blocks })

-- The bytes at an address, where they are allocated.
unfoldable pub block_at : ℕ → List (ℕ × String) → Option String
block_at p [] = none
block_at p ((q, content) ∷ blocks) =
    let rest = block_at p blocks in if eqb q p then some content else rest

unfoldable pub without : ℕ → List (ℕ × String) → List (ℕ × String)
without p [] = []
without p ((q, content) ∷ blocks) =
    let rest = without p blocks in if eqb q p then blocks else (q, content) ∷ rest

-- Freeing what is not allocated is undefined, here an error.
unfoldable pub free : ℕ → Heap → Result Heap
unfolding block_at without
free p heap = elim (block_at p heap.blocks) [
  | none ↦ err "free of an address that is not allocated"
  | some content ↦ ok (record heap { blocks = without p heap.blocks })
]

-- `Result<uint8_t>`, which owns its data, and `StreamerResult_C`, which has the same fields.
pub record ByteResult : Type 0 where
  pub data_at : Option ℕ
  pub len : ℕ
  pub error : ℕ
  pub error_msg : String

abbrev pub bytes : ℕ → String → ByteResult
bytes p content = record { data_at = some p; len = count content; error = 0; error_msg = "" }

-- The message has room for 255 bytes.
abbrev pub failure : String → ByteResult
failure message = record { data_at = none; len = 0; error = 1; error_msg = first_bytes 255 message }

-- `Result::free`, which the destructor calls, and `streamer_free`.
unfoldable pub release : ByteResult → Heap → Result Heap
unfolding free
release r heap = elim r.data_at [ none ↦ ok heap | some p ↦ free p heap ]

-- What is computed is copied to the heap.
unfoldable pub allocated : Result String → Heap → ByteResult × Heap
allocated (err e) heap = (failure e, heap)
allocated (ok content) heap = let (p, heap') = malloc content heap in (bytes p content, heap')

-- The fields are copied, and the C++ result goes out of scope.
unfoldable pub handed_over : Result String → Heap → Result (ByteResult × Heap)
unfolding allocated release
handed_over computed heap =
    let (result, heap') = allocated computed heap in
    elim (release result heap') [ err e ↦ err e | ok heap'' ↦ ok (result, heap'') ]

module _ (lz4 : Lz4) (gcm : Gcm) where
  unfoldable pub streamer_compress_encrypt :
      String → String → String → Heap → Result (ByteResult × Heap)
  streamer_compress_encrypt src key nonce = handed_over (compress_encrypt lz4 gcm src key nonce)

  unfoldable pub streamer_decrypt_decompress : String → String → Heap → Result (ByteResult × Heap)
  streamer_decrypt_decompress src key = handed_over (decrypt_decompress lz4 gcm src key)

-- The addresses that were given out are below the next one.
abbrev pub IsHeap : Heap → Type 0
IsHeap heap = All (λ (p, _). p < heap.next) heap.blocks

block_at-fresh :
    (n : ℕ) (blocks : List (ℕ × String)) → All (λ (p, _). p < n) blocks → block_at n blocks ≡ none
unfolding block_at
block_at-fresh n [] h = refl
block_at-fresh n ((p, content) ∷ blocks) (l, h) = ground (arith, l, block_at-fresh n blocks h)

-- What the wrapper gives for a text that was computed.
pub record Dangles (content : String) (r : Result (ByteResult × Heap)) : Type 0 where
  pub result : ByteResult
  pub after : Heap
  pub is_result : r ≡ ok (result, after)
  pub no_error : result.error ≡ 0
  pub full_length : result.len ≡ count content
  pub pointer : ℕ
  pub points : result.data_at ≡ some pointer
  pub not_there : block_at pointer after.blocks ≡ none
  pub twice : (e : String) × (release result after ≡ err e)

handed_over-Dangles :
    (content : String) (heap : Heap) → IsHeap heap → Dangles content (handed_over (ok content) heap)
unfolding handed_over allocated release free block_at without
handed_over-Dangles content heap h =
    let gone = block_at-fresh heap.next heap.blocks h in
    record {
      result = bytes heap.next content;
      after = record heap { next = heap.next + 1 };
      is_result = ground (arith);
      no_error = refl;
      full_length = refl;
      pointer = heap.next;
      points = refl;
      not_there = gone;
      twice = ("free of an address that is not allocated", rw (release, free, gone) refl);
    }

module _ (lz4 : Lz4) (gcm : Gcm) where
  -- Whatever text the streamer has encrypted, the wrapper for C reports it without an error and with
  -- its length, but the bytes that it points to are freed already: no block is at the address, and to
  -- free the result, as its caller does, is to free that address a second time.
  pub streamer_compress_encrypt-Dangles :
      (src key nonce out : String) (heap : Heap)
      → IsHeap heap
      → compress_encrypt lz4 gcm src key nonce ≡ ok out
      → Dangles out (streamer_compress_encrypt lz4 gcm src key nonce heap)
  unfolding streamer_compress_encrypt
  streamer_compress_encrypt-Dangles src key nonce out heap h e =
      rw e (handed_over-Dangles out heap h)

  -- The same of a text that the streamer has decrypted.
  pub streamer_decrypt_decompress-Dangles :
      (src key out : String) (heap : Heap)
      → IsHeap heap
      → decrypt_decompress lz4 gcm src key ≡ ok out
      → Dangles out (streamer_decrypt_decompress lz4 gcm src key heap)
  unfolding streamer_decrypt_decompress
  streamer_decrypt_decompress-Dangles src key out heap h e = rw e (handed_over-Dangles out heap h)
