-- ===== src/Tests/Chunking.antt =====
-- A decryption in chunks, over a context that only knows whether the tag is set.
use ghost_ship.Base.{
  String, ◌≡◌, refl, sym, ap, Bool, true, false, Result, ok, err, [], ◌∷◌, arith, inl, inr,
  Bool-cases, if◌then◌else◌,
}
use ghost_ship.Extractor.Stream.Streamer.Chunked.{
  Cipher, StreamerState, NeedsTag, decrypt_begin, decrypt_chunk, decrypt_chunks, decrypt_final,
  decrypt_final-decrypt_chunks,
}

abbrev tagged : Cipher Bool
tagged = record {
  encrypt_init = λ c. ok false;
  set_key = λ key nonce c. ok c;
  encrypt_update = λ chunk c. ok (chunk, c);
  encrypt_end = λ c. ok ("", c);
  get_tag = λ c. ok "tag";
  decrypt_init = λ c. ok false;
  decrypt_update = λ chunk c. ok (chunk, c);
  decrypt_end = λ c. if c then ok ("", c) else err "AES-GCM: authentication failed";
}

same_context :
    {chunk out : String} {c c' : Bool}
    → ◌≡◌ {A = Result (String × Bool)} (ok (chunk, c)) (ok (out, c'))
    → c' ≡ c
same_context h =
    let context : Result (String × Bool) → Bool = λ r. elim r [ err e ↦ true | ok (x, y) ↦ y ] in
    sym (ap context h)

tagged-NeedsTag : NeedsTag tagged
tagged-NeedsTag = record {
  has_tag = λ c. c;
  dropped = λ c c' h. ground (arith, h);
  kept = λ chunk out c c' h. same_context h;
  needed = λ out c c' h. elim (Bool-cases c) [ inl p ↦ p | inr p ↦ absurd (ground (arith, h, p)) ];
}

abbrev at_start : StreamerState Bool
at_start = record { key = "key"; context = true; buffer = "left over" }

abbrev begun : StreamerState Bool
begun = record { key = "key"; context = false; buffer = "" }

abbrev taken : StreamerState Bool
taken = record { key = "key"; context = false; buffer = "onetwo" }

begins : decrypt_begin tagged at_start ≡ ok begun
unfolding decrypt_begin
begins = refl

takes : decrypt_chunks tagged ("one" ∷ "two" ∷ []) begun ≡ ok taken
unfolding decrypt_chunks decrypt_chunk
takes = refl

decrypt_final-decrypt_chunks_example : (e : String) × (decrypt_final tagged taken ≡ err e)
decrypt_final-decrypt_chunks_example =
    decrypt_final-decrypt_chunks tagged tagged-NeedsTag ("one" ∷ "two" ∷ []) at_start begun taken
      begins takes
