-- ===== src/Provisioner/Compose.antt =====
-- internal/provisioner/services.go: the text of the compose project. `fmt.Sprintf` with %q prints
-- a name between quotes.
pub mod Laws
use ghost_ship.Base.{
  String, ◌<>◌, Bool, true, Error, Result, ok, err, none, some, List, [], ◌∷◌, ◌++◌, ◌&&◌, map,
  contains, length, ltb, ◌==◌, if◌then◌else◌,
}
use ghost_ship.Base.Text.{trim_space, quote}
use ghost_ship.Base.Int.{ℤ, pos, ltb_ℤ}
use ghost_ship.Base.Decimal.{format_int}
use ghost_ship.Base.Dict.{Dict, lookup}
use ghost_ship.Base.Sort.{sort_strings}
use ghost_ship.Config.{ServiceSpec, PortMapping}

-- `map[k]`, which is the empty text for a missing key
abbrev value_of : Dict String → String → String
value_of d k = elim (lookup k d) [ none ↦ "" | some v ↦ v ]

abbrev pub keys : Dict String → List String
keys d = map (λ (k, _). k) d

abbrev concat : List String → String
concat [] = ""
concat (s ∷ ss) = s <> concat ss

abbrev env_line : Dict String → String → String
env_line env key = "      " <> key <> ": \"" <> value_of env key <> "\"\n"

env_section : Dict String → String
env_section [] = ""
env_section (e ∷ env) =
    "    environment:\n" <> concat (map (env_line (e ∷ env)) (sort_strings (keys (e ∷ env))))

volume_section : List String → String
volume_section [] = ""
volume_section (v ∷ vs) =
    "    volumes:\n" <> concat (map (λ volume. "      - " <> volume <> "\n") (v ∷ vs))

port_mapping : PortMapping → String
port_mapping p =
    let mapping = format_int p.host <> ":" <> format_int p.container in
    if trim_space p.protocol == "" then mapping else mapping <> "/" <> p.protocol

port_section : List PortMapping → String
unfolding port_mapping
port_section [] = ""
port_section (p ∷ ps) =
    "    ports:\n" <> concat (map (λ q. "      - \"" <> port_mapping q <> "\"\n") (p ∷ ps))

-- What `writeComposeService` appends to the builder.
unfoldable pub write_compose_service : ServiceSpec → String
unfolding env_section volume_section port_section
write_compose_service s =
    "  "
    <> s.name
    <> ":\n"
    <> ("    image: " <> s.image <> "\n")
    <> "    restart: unless-stopped\n"
    <> (if ltb_ℤ (pos 0) s.memory_mb
        then "    mem_limit: " <> format_int s.memory_mb <> "m\n"
        else "")
    <> env_section s.env
    <> volume_section s.volumes
    <> port_section s.ports

-- The count that is used: at least 1.
abbrev pub effective_count : ServiceSpec → ℤ
effective_count s = if ltb_ℤ s.count (pos 1) then pos 1 else s.count

abbrev pub is_scaled : ServiceSpec → Bool
is_scaled s = ltb_ℤ (pos 1) (effective_count s)

abbrev pub has_ports : ServiceSpec → Bool
has_ports s = ltb 0 (length s.ports)

-- The checks of one round, in their order; `seen` holds the names of the rounds before.
unfoldable pub check_service : List String → ServiceSpec → Error
check_service seen s =
    if s.name == ""
    then some "service name is required"
    else if s.image == ""
    then some ("service " <> quote s.name <> " image is required")
    else if contains seen s.name
    then some ("duplicate service name " <> quote s.name)
    else if is_scaled s && has_ports s
    then some (
        "service "
        <> quote s.name
        <> " cannot use ports while count > 1 with docker compose scaling")
    else none

unfoldable pub scale_arg : ServiceSpec → List String
scale_arg s =
    if is_scaled s then ("--scale " <> s.name <> "=" <> format_int (effective_count s)) ∷ [] else []

-- The loop over the services, with the builder's text, the names and the arguments so far.
unfoldable pub build_loop :
    List ServiceSpec → String → List String → List String → Result (String × List String)
build_loop [] text seen args = ok (text, sort_strings args)
build_loop (s ∷ ss) text seen args =
    let rest =
      build_loop ss (text <> write_compose_service s) (s.name ∷ seen) (args ++ scale_arg s) in
    elim (check_service seen s) [ some e ↦ err e | none ↦ rest ]

abbrev pub header : String
header = "version: '3.9'\nservices:\n"

unfoldable pub build_compose_project : List ServiceSpec → Result (String × List String)
unfolding build_loop
build_compose_project services = build_loop services header [] []
