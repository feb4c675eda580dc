-- ===== src/Extractor/Reads/Files.antt =====
-- The extraction of certificates, of Xray's configuration and of databases reads.
use ghost_ship.Base.{
  String, ◌<>◌, ◌≡◌, refl, inl, inr, true, List, [], ◌∷◌, arith, Bool-cases, Result-cases,
}
use ghost_ship.Base.Text.{trim_space}
use ghost_ship.Base.Dict.{Dict, insert}
use ghost_ship.Ssh.{Server}
use ghost_ship.Extractor.Certs.{
  live, list_command, certificate_files, xray_paths, is_domain, domains_of, read_remote_file,
  domain_loop, certificate_loop, extract_certificates, xray_loop, extract_xray_config,
}
use ghost_ship.Extractor.Sqlite.{database_commands, extract_database, database_loop}
use ghost_ship.Extractor.Reads.{
  is_read, starts_with_one, all_read, read_more, start_reads, first_output_reads,
}

module _ (server : Server) where
  file_reads :
      (path : String) (log : List String)
      → all_read log ≡ true
      → all_read (read_remote_file server path log).1 ≡ true
  unfolding read_remote_file
  file_reads path log h =
      let cmds : List String =
        ("cat " <> path <> " 2>/dev/null") ∷ ("sudo cat " <> path <> " 2>/dev/null") ∷ [] in
      first_output_reads server ("unable to read file: " <> path) cmds log
        (
          start_reads "cat " (path <> " 2>/dev/null") refl,
          (start_reads "sudo cat " (path <> " 2>/dev/null") refl, tt),
        )
        h

  domain_reads :
      (domain : String) (names : List String) (certs : Dict String) (log : List String)
      → all_read log ≡ true
      → all_read (domain_loop server domain names certs log).1 ≡ true
  unfolding domain_loop
  domain_reads domain [] certs log h = h
  domain_reads domain (name ∷ names) certs log h =
      let r = read_remote_file server (live <> domain <> "/" <> name) log in
      let h' = file_reads (live <> domain <> "/" <> name) log h in
      elim (Result-cases r.0) [
        | inl (c, p) ↦
            ground
              (arith, p, domain_reads domain names (insert (domain <> "/" <> name) c certs) r.1 h')
        | inr (e, p) ↦ ground (arith, p, h')
      ]

  certificate_reads :
      (words : List String) (certs : Dict String) (log : List String)
      → all_read log ≡ true
      → all_read (certificate_loop server words certs log).1 ≡ true
  unfolding certificate_loop
  certificate_reads [] certs log h = h
  certificate_reads (word ∷ words) certs log h = elim (Bool-cases (is_domain (trim_space word))) [
    | inl p ↦
        let r = domain_loop server (trim_space word) certificate_files certs log in
        let h' = domain_reads (trim_space word) certificate_files certs log h in
        ground (arith, p, certificate_reads words r.0 r.1 h')
    | inr p ↦ ground (arith, p, certificate_reads words certs log h)
  ]

  pub extract_certificates_reads :
      (log : List String)
      → all_read log ≡ true
      → all_read (extract_certificates server log).1 ≡ true
  unfolding extract_certificates is_read starts_with_one
  extract_certificates_reads log h =
      certificate_reads (domains_of (server log list_command)) [] (list_command ∷ log)
        (read_more list_command log refl h)

  xray_reads :
      (paths : List String) (log : List String)
      → all_read log ≡ true
      → all_read (xray_loop server paths log).1 ≡ true
  unfolding xray_loop
  xray_reads [] log h = h
  xray_reads (path ∷ paths) log h =
      let r = read_remote_file server path log in
      let h' = file_reads path log h in
      let rest = xray_reads paths r.1 h' in
      elim (Result-cases r.0) [
        | inl (c, p) ↦ ground (arith, p, h', rest)
        | inr (e, p) ↦ ground (arith, p, rest)
      ]

  pub extract_xray_config_reads :
      (log : List String) → all_read log ≡ true → all_read (extract_xray_config server log).1 ≡ true
  unfolding extract_xray_config
  extract_xray_config_reads log h = xray_reads xray_paths log h

  database_reads :
      (path : String) (log : List String)
      → all_read log ≡ true
      → all_read (extract_database server path log).1 ≡ true
  unfolding extract_database
  database_reads path log h =
      let end : String = path <> " 2>/dev/null" in
      first_output_reads server ("unable to read database: " <> path) (database_commands path) log
        (
          start_reads "cat " end refl,
          (
            start_reads "sudo cat " end refl,
            (start_reads "sudo -u root cat " (path <> " 2>/dev/null || sudo cat " <> end) refl, tt),
          ),
        )
        h

  pub database_loop_reads :
      (key : String → String) (paths : List String) (databases : Dict String) (log : List String)
      → all_read log ≡ true
      → all_read (database_loop server key paths databases log).1 ≡ true
  unfolding database_loop
  database_loop_reads key [] databases log h = h
  database_loop_reads key (path ∷ paths) databases log h =
      let r = extract_database server path log in
      let h' = database_reads path log h in
      let rest = λ (d : Dict String). database_loop_reads key paths d r.1 h' in
      elim (Result-cases r.0) [
        | inl (c, p) ↦ ground (arith, p, rest databases, rest (insert (key path) c databases))
        | inr (e, p) ↦ ground (arith, p, rest databases)
      ]
