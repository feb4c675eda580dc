-- ===== src/Cli/Output/Success.antt =====
-- A migration says that it completed exactly if it did.
use ghost_ship.Base.{
  ℕ, String, ◌<>◌, ◌≡◌, refl, ◌↔◌, ◌⊎◌, inl, inr, true, false, Result, ok, err, List, [], arith,
  ◌||◌, ◌==◌, ltb, length, Bool-cases, Option-cases, Result-cases, ap, ◌∙◌,
}
use text.Mathlib.TextPositions.{starts_with-append}
use ghost_ship.Base.Text.{has_infix}
use ghost_ship.Base.Text.Laws.{has_infix-append, has_infix_of_start}
use ghost_ship.Config.{NodeManifest}
use ghost_ship.Ssh.{Server}
use ghost_ship.Nomad.Json.{Fields}
use ghost_ship.Nomad.Docker.{ContainerConfig}
use ghost_ship.Provisioner.{run_full_provisioning}
use ghost_ship.Extractor.State.{Runtime, SystemState, validate_state, extract_system_state}
use ghost_ship.Extractor.State.Laws.{restore_system_state_tries}
use ghost_ship.Cli.{
  MigrateOptions, no_options, parse_migrate, migrate_to, migrate_from, run_migration, cmd_migrate,
}
use ghost_ship.Cli.Output.{
  migrate_usage, phase_one, phase_two, phase_three, migrate_success, migrate_done, target_output,
  valid_output, source_output, connected_output, options_output, migrate_output,
}

abbrev address_error : String
address_error = "Error: --from and --to are required\n"

-- The exit status of a migration with what it has printed.
pub data Told : ℕ → String → Type 0 where
  misused : Told 1 migrate_usage
  unnamed : Told 1 address_error
  unloaded : Told 1 ""
  in_phase_one : Told 1 phase_one
  in_phase_two : Told 1 (phase_one <> phase_two)
  finished :
      (o : MigrateOptions) (state : SystemState)
      → Told 0 (phase_one <> (phase_two <> (phase_three <> migrate_done o state)))

retell : {n m : ℕ} {s t : String} → n ≡ m → s ≡ t → Told m t → Told n s
retell p q k = rw (p, q) k

behind_one :
    {n m : ℕ} {s t : String} → n ≡ m → s ≡ t → Told m (phase_one <> t) → Told n (phase_one <> s)
behind_one p q k = retell p (ap (λ x. phase_one <> x) q) k

finished_success :
    (o : MigrateOptions) (state : SystemState)
    → has_infix (phase_one <> (phase_two <> (phase_three <> migrate_done o state))) migrate_success
      ≡ true
finished_success o state = has_infix-append phase_one _ migrate_success (
    has_infix-append phase_two _ migrate_success (
      has_infix-append phase_three _ migrate_success (
        has_infix-append "\n✓ " _ migrate_success
          (has_infix_of_start _ migrate_success (starts_with-append migrate_success _)))))

Told-success :
    {n : ℕ} {text : String} → Told n text → (has_infix text migrate_success ≡ true) ↔ (n ≡ 0)
unfolding has_infix
Told-success misused = (λ h. absurd (ground (arith, h)), λ h. absurd (omega (arith, h)))
Told-success unnamed = (λ h. absurd (ground (arith, h)), λ h. absurd (omega (arith, h)))
Told-success unloaded = (λ h. absurd (ground (arith, h)), λ h. absurd (omega (arith, h)))
Told-success in_phase_one = (λ h. absurd (ground (arith, h)), λ h. absurd (omega (arith, h)))
Told-success in_phase_two = (λ h. absurd (ground (arith, h)), λ h. absurd (omega (arith, h)))
Told-success (finished o state) = (λ h. refl, λ h. finished_success o state)

module _ (connect : List String → String → Result Server)
    (load_config : String → Result NodeManifest) (runtime : Runtime)
    (decode_container : String → Result ContainerConfig)
    (decode_objects : String → Result (List Fields)) (decode_object : String → Result Fields)
    (sha256_hex base64 : String → String) where
  abbrev output_of : List String → String
  output_of =
      migrate_output connect load_config runtime decode_container decode_objects decode_object
        sha256_hex base64

  abbrev status_of : List String → ℕ
  status_of args =
      (cmd_migrate connect load_config runtime decode_container decode_objects decode_object
        sha256_hex base64 args).exit_code

  abbrev target_status : Server → NodeManifest → SystemState → List String → ℕ
  target_status to cfg state log =
      (migrate_to connect load_config runtime decode_container decode_objects decode_object
        sha256_hex base64 to cfg state log).exit_code

  abbrev target_text : MigrateOptions → Server → NodeManifest → SystemState → String
  target_text =
      target_output connect load_config runtime decode_container decode_objects decode_object
        sha256_hex base64

  target_told :
      (o : MigrateOptions) (to : Server) (cfg : NodeManifest) (state : SystemState)
      (log : List String)
      → ((target_status to cfg state log ≡ 1) × (target_text o to cfg state ≡ ""))
        ⊎ ((target_status to cfg state log ≡ 0)
            × (target_text o to cfg state ≡ phase_three <> migrate_done o state))
  unfolding migrate_to target_output
  target_told o to cfg state log =
      let r : List String = (run_full_provisioning to cfg []).1 in
      let restored = (restore_system_state_tries to sha256_hex base64 state r).0 in
      elim (Option-cases (run_full_provisioning to cfg []).0) [
        | inr (e, p) ↦ inl (ground (arith, p), ground (arith, p))
        | inl p ↦ inr (ground (arith, p, restored), ground (arith, p, restored))
      ]

  abbrev source_status : Server → String → NodeManifest → ℕ
  source_status from ip cfg =
      (migrate_from connect load_config runtime decode_container decode_objects decode_object
        sha256_hex base64 from ip cfg).exit_code

  abbrev source_text : MigrateOptions → Server → NodeManifest → String
  source_text =
      source_output connect load_config runtime decode_container decode_objects decode_object
        sha256_hex base64

  abbrev valid_text : MigrateOptions → NodeManifest → SystemState → List String → String
  valid_text =
      valid_output connect load_config runtime decode_container decode_objects decode_object
        sha256_hex base64

  unreached :
      (o : MigrateOptions) (cfg : NodeManifest) (state : SystemState) (log : List String)
      {e : String}
      → connect log o.target_ip ≡ err e
      → valid_text o cfg state log ≡ ""
  unfolding valid_output
  unreached o cfg state log q = ground (arith, q)

  reached :
      (o : MigrateOptions) (cfg : NodeManifest) (state : SystemState) (log : List String)
      {to : Server}
      → connect log o.target_ip ≡ ok to
      → valid_text o cfg state log ≡ target_text o to cfg state
  unfolding valid_output
  reached o cfg state log q = ground (arith, q)

  source-Told :
      (o : MigrateOptions) (from : Server) (cfg : NodeManifest)
      → Told (source_status from o.target_ip cfg) (phase_one <> source_text o from cfg)
  unfolding migrate_from source_output
  source-Told o from cfg =
      let (state, log) =
        extract_system_state from runtime decode_container decode_objects decode_object cfg [] in
      elim (Option-cases (validate_state state)) [
        | inr (e, p) ↦ behind_one {t = ""} (ground (arith, p)) (ground (arith, p)) in_phase_one
        | inl p ↦
            let text : source_text o from cfg ≡ phase_two <> valid_text o cfg state log =
              ground (arith, p) in
            let behind = λ (x : String) (h : valid_text o cfg state log ≡ x).
              text ∙ ap (λ y. phase_two <> y) h in
            elim (Result-cases (connect log o.target_ip)) [
              | inr (e, q) ↦
                  behind_one {t = phase_two} (ground (arith, p, q))
                    (behind "" (unreached o cfg state log q)) in_phase_two
              | inl (to, q) ↦
                  let same = reached o cfg state log q in
                  elim (target_told o to cfg state log) [
                    | inl (n, h) ↦
                        behind_one {t = phase_two} (ground (arith, p, q, n)) (behind "" (same ∙ h))
                          in_phase_two
                    | inr (n, h) ↦
                        let end : String = phase_three <> migrate_done o state in
                        behind_one {t = phase_two <> end} (ground (arith, p, q, n))
                          (behind end (same ∙ h)) (finished o state)
                  ]
            ]
      ]

  abbrev options_status : MigrateOptions → ℕ
  options_status o =
      (run_migration connect load_config runtime decode_container decode_objects decode_object
        sha256_hex base64 o).exit_code

  abbrev options_text : MigrateOptions → String
  options_text =
      options_output connect load_config runtime decode_container decode_objects decode_object
        sha256_hex base64

  abbrev connected_text : MigrateOptions → NodeManifest → String
  connected_text =
      connected_output connect load_config runtime decode_container decode_objects decode_object
        sha256_hex base64

  begun :
      (o : MigrateOptions) (cfg : NodeManifest)
      → (o.source_ip == "" || o.target_ip == "") ≡ false
      → load_config o.config_file ≡ ok cfg
      → options_text o ≡ phase_one <> connected_text o cfg
  unfolding options_output
  begun o cfg p q = ground (arith, p, q)

  unaddressed :
      (o : MigrateOptions)
      → (o.source_ip == "" || o.target_ip == "") ≡ true
      → options_text o ≡ address_error
  unfolding options_output
  unaddressed o p = ground (arith, p)

  unread :
      (o : MigrateOptions) {e : String}
      → (o.source_ip == "" || o.target_ip == "") ≡ false
      → load_config o.config_file ≡ err e
      → options_text o ≡ ""
  unfolding options_output
  unread o p q = ground (arith, p, q)

  options-Told : (o : MigrateOptions) → Told (options_status o) (options_text o)
  unfolding run_migration connected_output
  options-Told o = elim (Bool-cases (o.source_ip == "" || o.target_ip == "")) [
    | inl p ↦ retell (ground (arith, p)) (unaddressed o p) unnamed
    | inr p ↦ elim (Result-cases (load_config o.config_file)) [
      | inr (e, q) ↦ retell (ground (arith, p, q)) (unread o p q) unloaded
      | inl (cfg, q) ↦ elim (Result-cases (connect [] o.source_ip)) [
        | inr (e, r) ↦
            let none_left : connected_text o cfg ≡ "" = ground (arith, r) in
            retell (ground (arith, p, q, r)) (begun o cfg p q ∙ ap (λ x. phase_one <> x) none_left)
              in_phase_one
        | inl (from, r) ↦
            let more : connected_text o cfg ≡ source_text o from cfg = ground (arith, r) in
            retell (ground (arith, p, q, r)) (begun o cfg p q ∙ ap (λ x. phase_one <> x) more)
              (source-Told o from cfg)
      ]
    ]
  ]

  migrate-Told : (args : List String) → Told (status_of args) (output_of args)
  unfolding cmd_migrate migrate_output
  migrate-Told args = elim (Bool-cases (ltb (length args) 4)) [
    | inl p ↦ retell (ground (arith, p)) (ground (arith, p)) misused
    | inr p ↦
        retell (ground (arith, p)) (ground (arith, p))
          (options-Told (parse_migrate args no_options))
  ]

  -- What a migration prints and its exit status go together: the usage, the missing addresses, or
  -- nothing, or the heading of the phase that it stopped in behind those before, with status 1; or
  -- the three headings and the closing report, with status 0. And its output says that the migration
  -- completed successfully exactly if the status is 0.
  pub migrate_output-Told :
      (args : List String)
      → Told (status_of args) (output_of args)
        × ((has_infix (output_of args) migrate_success ≡ true) ↔ (status_of args ≡ 0))
  migrate_output-Told args = let k = migrate-Told args in (k, Told-success k)
