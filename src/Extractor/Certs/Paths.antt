-- ===== src/Extractor/Certs/Paths.antt =====
-- Where certificates come from and where they go.
use ghost_ship.Base.{
  String, ◌<>◌, ◌≡◌, refl, inl, inr, ok, Option, none, some, List, [], ◌∷◌, arith, Result-cases,
  Bool-cases, All, ap, ◌∙◌, ◌==◌, if◌then◌else◌,
}
use Prim.Native.String.{◌∷◌ as ◌∶◌}
use text.Mathlib.TextLemmas.{cons-append, nil-append}
use ghost_ship.Base.Text.{trim_space, split}
use ghost_ship.Base.Text.Split.{Lacks, split-two}
use ghost_ship.Base.Dict.{Dict, insert}
use ghost_ship.Ssh.{Reply}
use ghost_ship.Extractor.Read.{has_output, first_output}
use ghost_ship.Extractor.Certs.{
  live, certificate_files, read_remote_file, domain_loop, certificate_loop,
  certificate_restore_path, restore_path, is_domain, domains_of, list_command, extract_certificates,
}

-- A certificate's key leads back to the path that it was read from, if neither the domain nor the
-- file has a slash.
pub certificate_restore_path-key :
    (domain name : String)
    → Lacks b'/' domain
    → Lacks b'/' name
    → certificate_restore_path (domain <> "/" <> name) ≡ live <> domain <> "/" <> name
unfolding certificate_restore_path
certificate_restore_path-key domain name hd hn =
    let slash : String = "/" <> name in
    ap (λ (x : String). restore_path (split b'/' (domain <> x)))
      (cons-append "/" "" name ∙ ap (λ (x : String). "/" ∶ x) (nil-append name))
    ∙ ap restore_path (split-two b'/' domain name "/" hd hn refl)

-- What `cat` prints, or else `sudo cat`.
unfoldable pub shown_file : (String → Reply) → String → Option String
shown_file answers path =
    let plain = answers ("cat " <> path <> " 2>/dev/null") in
    let raised = answers ("sudo cat " <> path <> " 2>/dev/null") in
    if has_output plain then some plain.out else if has_output raised then some raised.out else none

-- A certificate's entry: the domain, the file, and that the server shows the content for them.
abbrev pub IsRead : (String → Reply) → String × String → Type 0
IsRead answers (key, content) =
    (domain : String) × (name : String) × (key ≡ domain <> "/" <> name)
    × (shown_file answers (live <> domain <> "/" <> name) ≡ some content)

insert-All {κ} :
    (P : String × String → Type κ) (k v : String) (d : Dict String)
    → P (k, v)
    → All P d
    → All P (insert k v d)
unfolding insert
insert-All P k v [] p h = (p, tt)
insert-All P k v ((j, w) ∷ d) p (q, h) = elim (Bool-cases (j == k)) [
  | inl e ↦ rw (e, All) (p, h)
  | inr e ↦ rw (e, All) (q, insert-All P k v d p h)
]

module _ (answers : String → Reply) where
  read-shown :
      (path content : String) (log : List String)
      → (read_remote_file (λ _ cmd. answers cmd) path log).0 ≡ ok content
      → shown_file answers path ≡ some content
  unfolding read_remote_file first_output shown_file
  read-shown path content log h = ground arith

  -- What holds of the entry of every domain and file that are allowed holds of all entries.
  module _ (D N : String → Type 0) (P : String × String → Type 0)
      (entry : (domain name content : String)
        → D domain
        → N name
        → shown_file answers (live <> domain <> "/" <> name) ≡ some content
        → P (domain <> "/" <> name, content)) where
    domain-All :
        (domain : String) (names : List String) (certs : Dict String) (log : List String)
        → D domain
        → All N names
        → All P certs
        → All P (domain_loop (λ _ cmd. answers cmd) domain names certs log).0
    unfolding domain_loop
    domain-All domain [] certs log d n h = h
    domain-All domain (name ∷ names) certs log d (n, ns) h =
        let r = read_remote_file (λ _ cmd. answers cmd) (live <> domain <> "/" <> name) log in
        elim (Result-cases r.0) [
          | inl (c, p) ↦
              let read =
                entry domain name c d n (read-shown (live <> domain <> "/" <> name) c log p) in
              rw (p, All)
                (domain-All domain names (insert (domain <> "/" <> name) c certs) r.1 d ns
                  (insert-All P (domain <> "/" <> name) c certs read h))
          | inr (e, p) ↦ rw (p, All) h
        ]

    certs-All :
        (words : List String) (certs : Dict String) (log : List String)
        → All (λ word. D (trim_space word)) words
        → All N certificate_files
        → All P certs
        → All P (certificate_loop (λ _ cmd. answers cmd) words certs log).0
    unfolding certificate_loop
    certs-All [] certs log d n h = h
    certs-All (word ∷ words) certs log (d, ds) n h =
        elim (Bool-cases (is_domain (trim_space word))) [
          | inl p ↦
              let r =
                domain_loop (λ _ cmd. answers cmd) (trim_space word) certificate_files certs log in
              rw (p, All)
                (certs-All words r.0 r.1 ds n
                  (domain-All (trim_space word) certificate_files certs log d n h))
          | inr p ↦ rw (p, All) (certs-All words certs log ds n h)
        ]

    pub extract_certificates-All :
        (log : List String)
        → All (λ word. D (trim_space word)) (domains_of (answers list_command))
        → All N certificate_files
        → All P (extract_certificates (λ _ cmd. answers cmd) log).0
    unfolding extract_certificates
    extract_certificates-All log d n =
        certs-All (domains_of (answers list_command)) [] (list_command ∷ log) d n tt

  every_word : (words : List String) → All {0, 0} (λ word. Unit) words
  every_word [] = tt
  every_word (word ∷ words) = (tt, every_word words)

  -- On a server with fixed replies, every certificate that is extracted has a domain and a file as
  -- its key and the text as its content that the server shows for that file.
  pub extract_certificates-IsRead :
      (log : List String) → All (IsRead answers) (extract_certificates (λ _ cmd. answers cmd) log).0
  extract_certificates-IsRead log =
      extract_certificates-All (λ _. Unit) (λ _. Unit) (IsRead answers)
        (λ domain name content d n shown. (domain, name, refl, shown)) log
        (every_word (domains_of (answers list_command))) (tt, (tt, (tt, tt)))
