-- ===== src/Extractor/Stream/Laws.antt =====
-- What is packed is unpacked into the map that it came from.
use ghost_ship.Base.{
  String, ◌<>◌, ◌≡◌, refl, false, Result, ok, List, [], ◌∷◌, ◌++◌, ◌==◌, if◌then◌else◌, arith, ap,
  ◌∙◌, sym, ◌≢◌, eq-false_iff, append-nil,
}
use text.Mathlib.TextPositions.{starts_with-append, slice-append_right, len-append}
use ghost_ship.Base.Text.{trim_prefix, first_bytes}
use ghost_ship.Base.Text.Split.{starts_with-differ, eq-differ}
use ghost_ship.Base.Dict.{Dict, insert}
use ghost_ship.Extractor.State.{SystemState}
use ghost_ship.Extractor.Stream.{TarReader, place_file, unpack_entries}
use ghost_ship.Extractor.Stream.Archive.{Entry, listing, listed, files_listed}
use text.Mathlib.TextLemmas.{append_assoc}

apart : (s t : String) → (s == t) ≡ false → s ≢ t
apart s t = (eq-false_iff s t).0

trimmed : (p s : String) → trim_prefix (p <> s) p ≡ s
unfolding trim_prefix
trimmed p s = rw (starts_with-append p s, len-append p s) (slice-append_right p s)

place_certificate :
    (name content : String) (state : SystemState)
    → place_file ("certs/" <> name) content state
      ≡ record state { certificates = insert name content state.certificates }
unfolding place_file
place_certificate name content state =
    rw (starts_with-append "certs/" name, trimmed "certs/" name) refl

place_database :
    (name content : String) (state : SystemState)
    → place_file ("databases/" <> name) content state
      ≡ record state { databases = insert name content state.databases }
unfolding place_file first_bytes
place_database name content state =
    rw
      (
        starts_with-differ 2 "databases/" "certs/" name (omega arith) (omega arith)
            (apart "da" "ce" refl),
        starts_with-append "databases/" name,
        trimmed "databases/" name,
      )
      refl

place_config :
    (name content : String) (state : SystemState)
    → place_file ("configs/" <> name) content state
      ≡ record state { configs = insert name content state.configs }
unfolding place_file first_bytes
place_config name content state =
    rw
      (
        starts_with-differ 2 "configs/" "certs/" name (omega arith) (omega arith)
            (apart "co" "ce" refl),
        starts_with-differ 2 "configs/" "databases/" name (omega arith) (omega arith)
            (apart "co" "da" refl),
        starts_with-append "configs/" name,
        trimmed "configs/" name,
      )
      refl

place_key :
    (name content : String) (state : SystemState)
    → place_file ("ssh_keys/" <> name) content state
      ≡ record state { ssh_public_keys = insert name content state.ssh_public_keys }
unfolding place_file first_bytes
place_key name content state =
    rw
      (
        starts_with-differ 2 "ssh_keys/" "certs/" name (omega arith) (omega arith)
            (apart "ss" "ce" refl),
        starts_with-differ 2 "ssh_keys/" "databases/" name (omega arith) (omega arith)
            (apart "ss" "da" refl),
        starts_with-differ 2 "ssh_keys/" "configs/" name (omega arith) (omega arith)
            (apart "ss" "co" refl),
        starts_with-append "ssh_keys/" name,
        trimmed "ssh_keys/" name,
      )
      refl

-- The entries of a map put into another one, in their order.
abbrev pub insert_all : Dict String → Dict String → Dict String
insert_all [] d = d
insert_all ((k, v) ∷ files) d = insert_all files (insert k v d)

-- A slash behind a prefix, in two ways to write it.
slashed : (prefix name : String) → prefix <> "/" <> name ≡ (prefix <> "/") <> name
slashed prefix name = sym (append_assoc prefix "/" name)

module _ (unmarshal : String → SystemState → Result SystemState) (read_tar : String → TarReader)
    (decrypt : String → String → Result String) where
  abbrev unpack : List Entry → SystemState → Result SystemState
  unpack entries = unpack_entries unmarshal read_tar decrypt (listing entries)

  -- One of the maps: its prefix, and how the state is set.
  unpack_map :
      (prefix : String) (put : Dict String → SystemState → SystemState)
      → ((s : SystemState) → put [] s ≡ s)
      → ((k v : String) (files : Dict String) (s : SystemState)
          → put ((k, v) ∷ files) s ≡ put files (place_file ((prefix <> "/") <> k) v s))
      → ((k : String) → ((prefix <> "/") <> k == "STATE.yaml") ≡ false)
      → (files : Dict String) (rest : List Entry) (s : SystemState)
      → unpack (listed prefix files ++ rest) s ≡ unpack rest (put files s)
  unfolding unpack_entries
  unpack_map prefix put none one name [] rest s = ap (unpack rest) (sym (none s))
  unpack_map prefix put none one name ((k, v) ∷ files) rest s =
      rw (slashed prefix k, name k, if◌then◌else◌, one k v files s)
        (unpack_map prefix put none one name files rest (place_file ((prefix <> "/") <> k) v s))

  unpack_certificates :
      (files : Dict String) (rest : List Entry) (s : SystemState)
      → unpack (listed "certs" files ++ rest) s
        ≡ unpack rest (record s { certificates = insert_all files s.certificates })
  unfolding first_bytes
  unpack_certificates =
      unpack_map "certs" (λ files s. record s { certificates = insert_all files s.certificates })
        (λ s. refl) (λ k v files s. rw (place_certificate k v s) refl)
        (λ k. eq-differ 2 "certs/" "STATE.yaml" k (omega arith) (apart "ce" "ST" refl))

  unpack_databases :
      (files : Dict String) (rest : List Entry) (s : SystemState)
      → unpack (listed "databases" files ++ rest) s
        ≡ unpack rest (record s { databases = insert_all files s.databases })
  unfolding first_bytes
  unpack_databases =
      unpack_map "databases" (λ files s. record s { databases = insert_all files s.databases })
        (λ s. refl) (λ k v files s. rw (place_database k v s) refl)
        (λ k. eq-differ 2 "databases/" "STATE.yaml" k (omega arith) (apart "da" "ST" refl))

  unpack_configs :
      (files : Dict String) (rest : List Entry) (s : SystemState)
      → unpack (listed "configs" files ++ rest) s
        ≡ unpack rest (record s { configs = insert_all files s.configs })
  unfolding first_bytes
  unpack_configs =
      unpack_map "configs" (λ files s. record s { configs = insert_all files s.configs })
        (λ s. refl) (λ k v files s. rw (place_config k v s) refl)
        (λ k. eq-differ 2 "configs/" "STATE.yaml" k (omega arith) (apart "co" "ST" refl))

  unpack_keys :
      (files : Dict String) (rest : List Entry) (s : SystemState)
      → unpack (listed "ssh_keys" files ++ rest) s
        ≡ unpack rest (record s { ssh_public_keys = insert_all files s.ssh_public_keys })
  unfolding first_bytes
  unpack_keys =
      unpack_map "ssh_keys"
        (λ files s. record s { ssh_public_keys = insert_all files s.ssh_public_keys }) (λ s. refl)
        (λ k v files s. rw (place_key k v s) refl)
        (λ k. eq-differ 2 "ssh_keys/" "STATE.yaml" k (omega arith) (apart "ss" "ST" refl))

  -- A state as the four maps of another one complete it.
  abbrev pub completed : SystemState → SystemState → SystemState
  completed state s = record s {
    certificates = insert_all state.certificates s.certificates;
    databases = insert_all state.databases s.databases;
    configs = insert_all state.configs s.configs;
    ssh_public_keys = insert_all state.ssh_public_keys s.ssh_public_keys;
  }

  -- The entries of a state, behind its STATE.yaml, unpack to what that describes, with each file of the four maps put into the map and under the key that it came from.
  pub unpack_entries-files_listed :
      (yaml : String) (state empty described : SystemState)
      → unmarshal yaml empty ≡ ok described
      → unpack_entries unmarshal read_tar decrypt
          (listing (("STATE.yaml", yaml) ∷ files_listed state))
          empty
        ≡ ok (completed state described)
  unfolding unpack_entries
  unpack_entries-files_listed yaml state empty described h =
      let s₁ : SystemState = record described {
        certificates = insert_all state.certificates described.certificates;
      } in
      let s₂ : SystemState = record s₁ { databases = insert_all state.databases s₁.databases } in
      let s₃ : SystemState = record s₂ { configs = insert_all state.configs s₂.configs } in
      let keys : List Entry = listed "ssh_keys" state.ssh_public_keys in
      let configs : List Entry = listed "configs" state.configs ++ keys in
      let databases : List Entry = listed "databases" state.databases ++ configs in
      rw h (
        unpack_certificates state.certificates databases described
        ∙ unpack_databases state.databases configs s₁
        ∙ unpack_configs state.configs keys s₂
        ∙ ap (λ (es : List Entry). unpack es s₃) (sym (append-nil keys))
        ∙ unpack_keys state.ssh_public_keys [] s₃)
