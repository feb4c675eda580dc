-- ===== src/Provisioner/Compose/Laws.antt =====
-- Which services the project accepts, and that its text does not depend on the order in which a
-- range visits a map.
use mathlib.Core.List.{Perm}
use mathlib.Core.List.Perm
use text.Mathlib.TextLemmas.{append-nil as String_append-nil, append_assoc as String_append_assoc}
use ghost_ship.Base.{
  String, ◌<>◌, ◌≡◌, refl, ◌≢◌, ◌↔◌, false, ok, none, List, [], ◌∷◌, ◌++◌, ◌&&◌, map, contains,
  arith, eq_iff, ap, ◌∙◌, append-nil, append_assoc, Option-cases, inl, inr,
}
use ghost_ship.Base.Dict.{Dict, lookup}
use ghost_ship.Base.Sort.{sort_strings}
use ghost_ship.Base.Sort.Laws.{sort_strings-eq_of_perm}
use ghost_ship.Config.{ServiceSpec}
use ghost_ship.Provisioner.Compose.{
  keys, concat, env_line, env_section, write_compose_service, is_scaled, has_ports, check_service,
  scale_arg, build_loop, header, build_compose_project,
}

-- Two association lists for one map: the same value at every key, and the same keys as often.
pub record SameMap (d e : Dict String) : Type 0 where
  pub values : (k : String) → lookup k d ≡ lookup k e
  pub keys_perm : Perm (keys d) (keys e)

-- A service that the project takes, whatever the others are.
pub record IsDeployable (s : ServiceSpec) : Type 0 where
  pub named : s.name ≢ ""
  pub pulled : s.image ≢ ""
  pub single : (is_scaled s && has_ports s) ≡ false

-- All can be deployed, and none has a name that stands in `seen` or further up.
abbrev pub AllDeployable : List String → List ServiceSpec → Type 0
AllDeployable seen [] = Unit
AllDeployable seen (s ∷ ss) =
    IsDeployable s × (contains seen s.name ≡ false) × AllDeployable (s.name ∷ seen) ss

-- The text and the arguments of a project that is accepted.
abbrev pub project_text : List ServiceSpec → String
project_text [] = ""
project_text (s ∷ ss) = write_compose_service s <> project_text ss

abbrev pub project_args : List ServiceSpec → List String
project_args [] = []
project_args (s ∷ ss) = scale_arg s ++ project_args ss

check_service-none_iff :
    (seen : List String) (s : ServiceSpec)
    → (check_service seen s ≡ none) ↔ (IsDeployable s × (contains seen s.name ≡ false))
unfolding check_service
check_service-none_iff seen s = (
  λ h. (
    record {
      named = λ p. ground (arith, eq_iff s.name "");
      pulled = λ p. ground (arith, eq_iff s.image "");
      single = ground arith;
    },
    ground arith,
  ),
  λ d. ground (arith, eq_iff s.name "", eq_iff s.image ""),
)

env_lines_same :
    (d e : Dict String) (ks : List String)
    → ((k : String) → lookup k d ≡ lookup k e)
    → map (env_line d) ks ≡ map (env_line e) ks
env_lines_same d e [] h = refl
env_lines_same d e (k ∷ ks) h = ground (arith, h k, env_lines_same d e ks h)

env_section_same : (d e : Dict String) → SameMap d e → env_section d ≡ env_section e
unfolding env_section
env_section_same [] [] m = refl
env_section_same [] (x ∷ e) m = cc (Perm.nil-eq m.keys_perm)
env_section_same (x ∷ d) [] m = cc (Perm.eq-nil m.keys_perm)
env_section_same (x ∷ d) (y ∷ e) m =
    ap (λ t. "    environment:\n" <> concat t)
      (env_lines_same (x ∷ d) (y ∷ e) (sort_strings (keys (x ∷ d))) m.values
        ∙ ap (map (env_line (y ∷ e))) (sort_strings-eq_of_perm m.keys_perm))

-- The text of a service does not depend on the order in which its environment is visited.
pub write_compose_service_same :
    (s : ServiceSpec) (d e : Dict String)
    → SameMap d e
    → write_compose_service (record s { env = d }) ≡ write_compose_service (record s { env = e })
unfolding write_compose_service
write_compose_service_same s d e m = cc (env_section_same d e m)

build_loop_ok :
    (ss : List ServiceSpec) (text : String) (seen args : List String)
    → AllDeployable seen ss
    → build_loop ss text seen args
      ≡ ok (text <> project_text ss, sort_strings (args ++ project_args ss))
unfolding build_loop
build_loop_ok [] text seen args h = rw (String_append-nil, append-nil)
build_loop_ok (s ∷ ss) text seen args h = ground (
  arith,
  (check_service-none_iff seen s).1 (h.0, h.1),
  String_append_assoc text (write_compose_service s) (project_text ss),
  append_assoc args (scale_arg s) (project_args ss),
  build_loop_ok ss (text <> write_compose_service s) (s.name ∷ seen) (args ++ scale_arg s) h.2,
)

build_loop_deployable :
    (ss : List ServiceSpec) (text : String) (seen args : List String) {r : String × List String}
    → build_loop ss text seen args ≡ ok r
    → AllDeployable seen ss
unfolding build_loop
build_loop_deployable [] text seen args h = tt
build_loop_deployable (s ∷ ss) text seen args {r} h = elim (Option-cases (check_service seen s)) [
  | inr (e, p) ↦ absurd (ground arith)
  | inl p ↦
      let d = (check_service-none_iff seen s).0 p in
      (
        d.0,
        d.1,
        build_loop_deployable ss (text <> write_compose_service s) (s.name ∷ seen)
            (args ++ scale_arg s) {r = r} (ground arith),
      )
]

-- A project is accepted exactly when every service has a name and an image, no name is used twice,
-- and no service has both ports and a count above 1. Its text is then the header and the services
-- in their order, and its arguments are those of the scaled services, sorted.
pub build_compose_project-ok_iff :
    (ss : List ServiceSpec) (text : String) (args : List String)
    → (build_compose_project ss ≡ ok (text, args)) ↔ (
        AllDeployable [] ss
        × (text ≡ header <> project_text ss)
        × (args ≡ sort_strings (project_args ss)))
unfolding build_compose_project
build_compose_project-ok_iff ss text args = (
  λ h.
      let d = build_loop_deployable ss header [] [] h in
      let e = build_loop_ok ss header [] [] d in (d, ground arith, ground arith),
  λ d. rw (d.1, d.2) (build_loop_ok ss header [] [] d.0),
)
