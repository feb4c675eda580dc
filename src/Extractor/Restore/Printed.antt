-- ===== src/Extractor/Restore/Printed.antt =====
-- The output of `sha256sum` and of `stat`, read back.
use Prim.Native.Nat.{◌^◌}
use text.Mathlib.TextLemmas.{cons-append}
use ghost_ship.Base.{
  ℕ, String, ◌<>◌, ◌≡◌, refl, ◌≢◌, ◌-◌, ◌≤◌, inl, inr, Bool, ok, err, Option, none, some, List, [],
  ◌∷◌, count, ◌==◌, arith, ap, sym, ◌∙◌, eq-false_iff, Bool-cases, eq_iff,
}
use ghost_ship.Base.Text.{trim_space, fields, is_space}
use ghost_ship.Base.Text.Laws.{trim_space-newline}
use ghost_ship.Base.Text.Words.{IsWord, fields-trim_space, fields-word, trim_space-IsWord}
use ghost_ship.Base.Int.{pos}
use ghost_ship.Base.Decimal.{format_nat}
use ghost_ship.Base.Decimal.RoundTrip.{
  IsDigits, format_nat-IsDigits, format_nat-ne-nil, atoi-format_nat,
}
use ghost_ship.Ssh.{Reply, Server}
use ghost_ship.Extractor.Restore.{
  sha_command, stat_command, parent_command, sha_of, size_of, inspect_remote_file,
}
use ghost_ship.Extractor.Restore.Inspect.{inspect-Reports}
use ghost_ship.Extractor.Restore.File.{HoldsFile}

-- `sha256sum` prints the hash, two blanks and the path; `stat` prints the size.
abbrev pub sha_reply : String → String → Reply
sha_reply hash path = record { out = hash <> "  " <> path <> "\n"; err = none }

abbrev pub size_reply : ℕ → Reply
size_reply n = record { out = format_nat n <> "\n"; err = none }

digits-IsWord : (s : String) → IsDigits s → IsWord s
unfolding is_space
digits-IsWord String.[] h = tt
digits-IsWord (String.◌∷◌ c s) (lo, hi, h) = (ground arith, digits-IsWord s h)

fields-sha_reply :
    (hash path : String)
    → hash ≢ ""
    → IsWord hash
    → fields (sha_reply hash path).out ≡ hash ∷ fields (" " <> path <> "\n")
unfolding is_space
fields-sha_reply hash path n w =
    let rest : String = path <> "\n" in
    ap (λ (x : String). fields (hash <> x)) (cons-append " " " " rest)
    ∙ fields-word hash (" " <> rest) " " n w refl

pub sha_of-reply :
    (hash path : String) → hash ≢ "" → IsWord hash → sha_of path (sha_reply hash path) ≡ ok hash
unfolding sha_of fields
sha_of-reply hash path n w =
    let out : String = (sha_reply hash path).out in
    let words = fields-trim_space out ∙ fields-sha_reply hash path n w in
    elim (Bool-cases (trim_space out == "")) [
      | inl p ↦ absurd (
          let none_left : [] ≡ hash ∷ fields (" " <> path <> "\n") =
            sym (ap fields ((eq_iff (trim_space out) "").0 p)) ∙ words in
          cc)
      | inr p ↦ rw (p, words) refl
    ]

pub size_of-reply :
    (path : String) (n : ℕ) → n ≤ 2 ^ 63 - 1 → size_of path (size_reply n) ≡ ok (pos n)
unfolding size_of
size_of-reply path n b =
    let trimmed =
      trim_space-newline (format_nat n)
      ∙ trim_space-IsWord (format_nat n) (digits-IsWord (format_nat n) (format_nat-IsDigits n)) in
    let some_digits = (eq-false_iff (format_nat n) "").1 (format_nat-ne-nil n) in
    rw (trimmed, some_digits, atoi-format_nat n b) refl

-- A server on which the two programs print as they do for a file that it keeps.
pub record PrintsFile (server : Server) (sha256_hex : String → String) (path : String)
    (use_sudo : Bool) : Type 0 where
  pub file : List String → Option String
  pub sha_printed :
      (log : List String) (c : String)
      → file log ≡ some c
      → server log (sha_command use_sudo path) ≡ sha_reply (sha256_hex c) path
  pub sha_failed :
      (log : List String)
      → file log ≡ none
      → (e : String) × ((server log (sha_command use_sudo path)).err ≡ some e)
  pub size_printed :
      (log : List String) (c : String)
      → file log ≡ some c
      → server log (stat_command use_sudo path) ≡ size_reply (count c)
  pub fits : (log : List String) (c : String) → file log ≡ some c → count c ≤ 2 ^ 63 - 1
  pub is_hash : (c : String) → (sha256_hex c ≢ "") × IsWord (sha256_hex c)
  pub after_sha : (log : List String) → file (sha_command use_sudo path ∷ log) ≡ file log
  pub after_stat : (log : List String) → file (stat_command use_sudo path ∷ log) ≡ file log
  pub after_parent : (log : List String) → file (parent_command use_sudo path ∷ log) ≡ file log

module _ (server : Server) (sha256_hex : String → String) (path : String) (use_sudo : Bool)
    (F : PrintsFile server sha256_hex path use_sudo) where
  missing :
      (log : List String)
      → F.file log ≡ none
      → (e : String) × (sha_of path (server log (sha_command use_sudo path)) ≡ err e)
  unfolding sha_of
  missing log h =
      let (e, p) = F.sha_failed log h in ("remote file not accessible: " <> path, rw p refl)

  sha_found :
      (log : List String) (c : String)
      → F.file log ≡ some c
      → sha_of path (server log (sha_command use_sudo path)) ≡ ok (sha256_hex c)
  sha_found log c p =
      let (filled, word) = F.is_hash c in
      rw (F.sha_printed log c p) (sha_of-reply (sha256_hex c) path filled word)

  size_found :
      (log : List String) (c : String)
      → F.file log ≡ some c
      → size_of path (server log (stat_command use_sudo path)) ≡ ok (pos (count c))
  size_found log c p = rw (F.size_printed log c p) (size_of-reply path (count c) (F.fits log c p))

  -- Such a server keeps the file in the sense of a restore.
  pub PrintsFile-HoldsFile : HoldsFile server sha256_hex path use_sudo
  PrintsFile-HoldsFile = record {
    file = F.file;
    sha_found = sha_found;
    sha_missing = missing;
    size_found = size_found;
    after_sha = F.after_sha;
    after_stat = F.after_stat;
    after_parent = F.after_parent;
  }

  -- Where `sha256sum` and `stat` print the hash and the size of a file, in their formats and with a
  -- size of at most 63 bits, an inspection reads back exactly that hash and that size.
  pub inspect_remote_file-printed :
      (log : List String) (content : String)
      → F.file log ≡ some content
      → inspect_remote_file server path use_sudo log ≡ (
        ok (record { sha256 = sha256_hex content; size = pos (count content) }),
        stat_command use_sudo path ∷ sha_command use_sudo path ∷ log,
      )
  inspect_remote_file-printed log content h =
      inspect-Reports server path use_sudo log (sha256_hex content) content (record {
        sha_shown = sha_found log content h;
        size_shown = size_found (sha_command use_sudo path ∷ log) content (F.after_sha log ∙ h);
      })
