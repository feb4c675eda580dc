-- ===== src/Config/Laws.antt =====
-- What a manifest that was loaded satisfies.
use ghost_ship.Base.{
  String, ◌≡◌, refl, ◌≢◌, ◌↔◌, ◌⊎◌, none, arith, eq_iff, Result, ok, inl, inr, sym, ◌∙◌,
  Result-cases, Option-cases,
}
use ghost_ship.Config.{NodeManifest, role_relay, role_exit, apply_defaults, validate, load}
use ghost_ship.Config.Completed.{
  IsCompleted, apply_defaults-IsCompleted, IsCompleted-apply_defaults,
}

-- The conditions on a node that `validate` tests.
pub record IsValid (m : NodeManifest) : Type 0 where
  pub role : (m.node.role ≡ role_relay) ⊎ (m.node.role ≡ role_exit)
  pub hostname : m.node.hostname ≢ ""

-- `validate` accepts exactly the manifests with a known role and a host name.
pub validate-none_iff : (m : NodeManifest) → (validate m ≡ none) ↔ IsValid m
unfolding validate
validate-none_iff m = (
  λ h. record {
    role =
        ground (
          arith,
          eq_iff m.node.role "",
          eq_iff m.node.role role_relay,
          eq_iff m.node.role role_exit,
        );
    hostname = λ p. ground (arith, eq_iff m.node.hostname "");
  },
  λ v. ground (
    arith,
    eq_iff m.node.role "",
    eq_iff m.node.role role_relay,
    eq_iff m.node.role role_exit,
    eq_iff m.node.hostname "",
    eq_iff role_relay "",
    eq_iff role_exit "",
  ),
)

validate-apply_defaults : (m : NodeManifest) → validate (apply_defaults m) ≡ validate m
unfolding validate apply_defaults
validate-apply_defaults m = refl

module _ (read_file : String → Result String) (unmarshal : String → Result NodeManifest) where
  -- How a manifest came from the file at a path.
  pub record Loaded (path : String) (m : NodeManifest) : Type 0 where
    pub text : String
    pub raw : NodeManifest
    pub was_read : read_file path ≡ ok text
    pub was_parsed : unmarshal text ≡ ok raw
    pub valid : IsValid raw
    pub completed : IsCompleted raw m

  load_sound :
      (path : String) (m : NodeManifest) → load read_file unmarshal path ≡ ok m → Loaded path m
  unfolding load
  load_sound path m h = elim (Result-cases (read_file path)) [
    | inr (e, p) ↦ absurd (ground arith)
    | inl (text, p) ↦ elim (Result-cases (unmarshal text)) [
      | inr (e, q) ↦ absurd (ground arith)
      | inl (raw, q) ↦ elim (Option-cases (validate (apply_defaults raw))) [
        | inr (e, v) ↦ absurd (ground arith)
        | inl v ↦
            let same : apply_defaults raw ≡ m = ground (arith, h, p, q, v) in
            record {
              text = text;
              raw = raw;
              was_read = p;
              was_parsed = q;
              valid = (validate-none_iff raw).0 (sym (validate-apply_defaults raw) ∙ v);
              completed = (rw same at (apply_defaults-IsCompleted raw));
            }
      ]
    ]
  ]

  load_complete :
      (path : String) (m : NodeManifest) → Loaded path m → load read_file unmarshal path ≡ ok m
  unfolding load
  load_complete path m l = ground (
    arith,
    l.was_read,
    l.was_parsed,
    IsCompleted-apply_defaults l.raw m l.completed,
    validate-apply_defaults l.raw,
    (validate-none_iff l.raw).1 l.valid,
  )

  -- `Load` returns a manifest exactly when the file is read and parsed, the parsed manifest has a
  -- known role and a host name, and the result is the parsed manifest where SSH is allowed, the
  -- firewall's backend is ufw, Nomad has its directory, address and log level, and each service has 1
  -- copy and 128 MB, the last six where the file gives none, and all else as the file gives it.
  pub load-ok_iff :
      (path : String) (m : NodeManifest) → (load read_file unmarshal path ≡ ok m) ↔ Loaded path m
  unfolding load
  load-ok_iff path m = (load_sound path m, load_complete path m)
