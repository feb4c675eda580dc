-- ===== src/Config/Completed.antt =====
-- What a manifest becomes with its defaults, setting by setting.
use ghost_ship.Base.{
  String, ◌≡◌, refl, ◌≢◌, ◌⊎◌, true, List, [], ◌∷◌, map, arith, eq_iff, inl, inr, sym, ◌∙◌, zero,
  suc, Bool-cases, ap, ◌==◌, eq-false_iff,
}
use ghost_ship.Base.Int.{ℤ, pos, negsuc}
use ghost_ship.Config.{
  NodeManifest, ServiceSpec, default_to, default_int, service_defaults, apply_defaults,
}

default_to_given : (d s : String) → s ≢ "" → default_to d s ≡ s
default_to_given d s n = ground (arith, eq_iff s "")

default_int_given : (d n : ℤ) → n ≢ pos 0 → default_int d n ≡ n
default_int_given d (pos n) h = ground arith
default_int_given d (negsuc n) h = refl

-- A text or a number as it is used: the given one, or the default where none is given.
abbrev pub IsText : String → String → String → Type 0
IsText default given used = ((given ≡ "") × (used ≡ default)) ⊎ ((given ≢ "") × (used ≡ given))

abbrev pub IsNumber : ℤ → ℤ → ℤ → Type 0
IsNumber default given used =
    ((given ≡ pos 0) × (used ≡ default)) ⊎ ((given ≢ pos 0) × (used ≡ given))

pub record IsService (given used : ServiceSpec) : Type 0 where
  pub name : used.name ≡ given.name
  pub image : used.image ≡ given.image
  pub volumes : used.volumes ≡ given.volumes
  pub env : used.env ≡ given.env
  pub ports : used.ports ≡ given.ports
  pub count : IsNumber (pos 1) given.count used.count
  pub memory_mb : IsNumber (pos 128) given.memory_mb used.memory_mb

abbrev pub AreServices : List ServiceSpec → List ServiceSpec → Type 0
AreServices [] [] = Unit
AreServices [] (u ∷ used) = ⊥
AreServices (g ∷ given) [] = ⊥
AreServices (g ∷ given) (u ∷ used) = IsService g u × AreServices given used

-- What is used of a given manifest, setting by setting.
pub record IsCompleted (given used : NodeManifest) : Type 0 where
  pub node : used.node ≡ given.node
  pub monitor : used.monitor ≡ given.monitor
  pub allow_ports : used.firewall.allow_ports ≡ given.firewall.allow_ports
  pub allow_ssh : used.firewall.allow_ssh ≡ true
  pub backend : IsText "ufw" given.firewall.backend used.firewall.backend
  pub services : AreServices given.services used.services
  pub data_dir : IsText "/opt/nomad/data" given.nomad.data_dir used.nomad.data_dir
  pub bind_addr : IsText "0.0.0.0" given.nomad.bind_addr used.nomad.bind_addr
  pub log_level : IsText "INFO" given.nomad.log_level used.nomad.log_level
  pub server_mode : used.nomad.server_mode ≡ given.nomad.server_mode

IsText-default_to : (d s : String) → IsText d s (default_to d s)
IsText-default_to d s = elim (Bool-cases (s == "")) [
  | inl p ↦ inl ((eq_iff s "").0 p, rw p refl)
  | inr p ↦ inr ((eq-false_iff s "").0 p, rw p refl)
]

default_to-IsText : {d s t : String} → IsText d s t → t ≡ default_to d s
default_to-IsText {d} {s} (inl (p, q)) = ground (arith, p, q, eq_iff s "")
default_to-IsText {d} {s} (inr (p, q)) = q ∙ sym (default_to_given d s p)

IsNumber-default_int : (d n : ℤ) → IsNumber d n (default_int d n)
IsNumber-default_int d (pos zero) = inl (refl, refl)
IsNumber-default_int d (pos (suc n)) =
    let given : pos (suc n) ≢ pos 0 = λ h. ground (arith, h) in
    inr (given, default_int_given d (pos (suc n)) given)
IsNumber-default_int d (negsuc n) = inr (λ h. cc h, refl)

default_int-IsNumber : {d n k : ℤ} → IsNumber d n k → k ≡ default_int d n
default_int-IsNumber {d} {n} (inl (p, q)) = q ∙ sym (ap (default_int d) p)
default_int-IsNumber {d} {n} (inr (p, q)) = q ∙ sym (default_int_given d n p)

AreServices-service_defaults : (ss : List ServiceSpec) → AreServices ss (map service_defaults ss)
AreServices-service_defaults [] = tt
AreServices-service_defaults (s ∷ ss) = (
  record {
    name = refl;
    image = refl;
    volumes = refl;
    env = refl;
    ports = refl;
    count = IsNumber-default_int (pos 1) s.count;
    memory_mb = IsNumber-default_int (pos 128) s.memory_mb;
  },
  AreServices-service_defaults ss,
)

service_defaults-IsService : (g u : ServiceSpec) → IsService g u → u ≡ service_defaults g
service_defaults-IsService g u k = cc (
  k.name,
  k.image,
  k.volumes,
  k.env,
  k.ports,
  default_int-IsNumber k.count,
  default_int-IsNumber k.memory_mb,
)

service_defaults-AreServices :
    (given used : List ServiceSpec) → AreServices given used → used ≡ map service_defaults given
service_defaults-AreServices [] [] k = refl
service_defaults-AreServices [] (u ∷ used) k = elim k [ ]
service_defaults-AreServices (g ∷ given) [] k = elim k [ ]
service_defaults-AreServices (g ∷ given) (u ∷ used) (k, rest) =
    cc (service_defaults-IsService g u k, service_defaults-AreServices given used rest)

pub apply_defaults-IsCompleted : (m : NodeManifest) → IsCompleted m (apply_defaults m)
unfolding apply_defaults
apply_defaults-IsCompleted m = record {
  node = refl;
  monitor = refl;
  allow_ports = refl;
  allow_ssh = refl;
  backend = IsText-default_to "ufw" m.firewall.backend;
  services = AreServices-service_defaults m.services;
  data_dir = IsText-default_to "/opt/nomad/data" m.nomad.data_dir;
  bind_addr = IsText-default_to "0.0.0.0" m.nomad.bind_addr;
  log_level = IsText-default_to "INFO" m.nomad.log_level;
  server_mode = refl;
}

pub IsCompleted-apply_defaults :
    (given used : NodeManifest) → IsCompleted given used → used ≡ apply_defaults given
unfolding apply_defaults
IsCompleted-apply_defaults given used k = cc (
  k.node,
  k.monitor,
  k.allow_ports,
  k.allow_ssh,
  default_to-IsText k.backend,
  service_defaults-AreServices given.services used.services k.services,
  default_to-IsText k.data_dir,
  default_to-IsText k.bind_addr,
  default_to-IsText k.log_level,
  k.server_mode,
)
