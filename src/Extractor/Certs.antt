-- ===== src/Extractor/Certs.antt =====
-- internal/extractor/certs.go: the certificates and the configuration of Xray.
pub mod Paths
use ghost_ship.Base.{
  String, ◌<>◌, Bool, Result, ok, err, Option, none, some, List, [], ◌∷◌, ◌||◌, ◌==◌, if◌then◌else◌,
}
use ghost_ship.Base.Text.{trim_space, fields, split, newline}
use ghost_ship.Base.Dict.{Dict, insert}
use ghost_ship.Ssh.{Reply, Server, Ssh, pure, run, ◌>>=◌}
use ghost_ship.Extractor.Read.{first_output, has_output}
use ghost_ship.Nomad.Docker.{kept_lines, lines_of}

abbrev pub live : String
live = "/etc/letsencrypt/live/"

abbrev pub list_command : String
list_command = "ls -la /etc/letsencrypt/live/ 2>/dev/null | tail -n +4 | awk '{print $NF}'"

abbrev pub certificate_files : List String
certificate_files = "cert.pem" ∷ "privkey.pem" ∷ "fullchain.pem" ∷ []

abbrev pub xray_paths : List String
xray_paths =
    "/etc/xray/config.json" ∷ "/opt/xray/config.json" ∷ "/app/config.json"
    ∷ "/usr/local/etc/xray/config.json" ∷ []

abbrev pub is_domain : String → Bool
is_domain domain = elim (domain == "" || domain == "." || domain == "..") [
  | Bool.true ↦ Bool.false
  | Bool.false ↦ Bool.true
]

abbrev pub domains_of : Reply → List String
domains_of r = elim r.err [
  | some _ ↦ []
  | none ↦ if trim_space r.out == "" then [] else fields r.out
]

module _ (server : Server) where
  unfoldable pub read_remote_file : String → Ssh (Result String)
  read_remote_file path =
      first_output server ("unable to read file: " <> path)
        (("cat " <> path <> " 2>/dev/null") ∷ ("sudo cat " <> path <> " 2>/dev/null") ∷ [])

  -- The files of one domain, up to the first that cannot be read.
  unfoldable pub domain_loop : String → List String → Dict String → Ssh (Dict String)
  domain_loop domain [] certs log = (certs, log)
  domain_loop domain (name ∷ names) certs log =
      let (content, log') = read_remote_file (live <> domain <> "/" <> name) log in
      let more =
        λ (c : String). domain_loop domain names (insert (domain <> "/" <> name) c certs) log' in
      elim content [ err _ ↦ (certs, log') | ok c ↦ more c ]

  unfoldable pub certificate_loop : List String → Dict String → Ssh (Dict String)
  unfolding domain_loop
  certificate_loop [] certs log = (certs, log)
  certificate_loop (word ∷ words) certs log =
      let domain = trim_space word in
      let skipped = certificate_loop words certs log in
      let (certs', log') = domain_loop domain certificate_files certs log in
      let rest = certificate_loop words certs' log' in if is_domain domain then rest else skipped

  unfoldable pub extract_certificates : Ssh (Dict String)
  unfolding certificate_loop
  extract_certificates = do r ← run server list_command; certificate_loop (domains_of r) []

  unfoldable pub xray_loop : List String → Ssh (Result String)
  xray_loop [] log = (err "xray config not found", log)
  xray_loop (path ∷ paths) log =
      let (content, log') = read_remote_file path log in
      let rest = xray_loop paths log' in
      elim content [ err _ ↦ rest | ok c ↦ if c == "" then rest else (ok c, log') ]

  unfoldable pub extract_xray_config : Ssh (Result String)
  unfolding xray_loop
  extract_xray_config = xray_loop xray_paths

  abbrev stats_command : String
  stats_command = "curl -s http://127.0.0.1:10085/query 2>/dev/null | head -c 10000"

  unfoldable pub extract_xray_state : Ssh (Dict String)
  extract_xray_state = do
    config ← extract_xray_config
    r ← run server stats_command
    let found : Dict String = elim config [
      | err _ ↦ []
      | ok c ↦ if c == "" then [] else insert "config.json" c []
    ]
    pure (if has_output r then insert "xray_stats.json" r.out found else found)

  unfoldable pub backup_certificate_paths : Ssh (List String)
  backup_certificate_paths = do
    r ← run server "find /etc/letsencrypt/live/ -type f -name '*.pem' 2>/dev/null"
    pure (elim r.err [
      | some _ ↦ []
      | none ↦ kept_lines (λ line. if line == "" then Bool.false else Bool.true) (lines_of r.out)
    ])

-- `certificateRestorePath` of extractor.go: where the file of a certificate's key is put.
abbrev pub restore_path : List String → String
restore_path (domain ∷ name ∷ []) = live <> domain <> "/" <> name
restore_path _ = ""

unfoldable pub certificate_restore_path : String → String
certificate_restore_path key = restore_path (split b'/' key)
