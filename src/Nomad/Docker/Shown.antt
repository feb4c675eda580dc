-- ===== src/Nomad/Docker/Shown.antt =====
-- What a restored container takes from `docker inspect`.
use ghost_ship.Base.{String, ◌<>◌, ◌≡◌, List, [], ◌∷◌, ◌++◌, map, Option, some}
use ghost_ship.Base.Text.{trim_prefix}
use ghost_ship.Base.Dict.{Dict}
use ghost_ship.Nomad.Json.{Fields}
use ghost_ship.Nomad.Docker.{object_at, string_at, texts_at, labels_of, names_of}

abbrev of_host : Fields → Option Fields
of_host fs = object_at "HostConfig" (some fs)

abbrev of_config : Fields → Option Fields
of_config fs = object_at "Config" (some fs)

-- Two outputs that differ at most in the identifier, the status, the networks and in where the ports
-- of the container are bound.
pub record IsSameBut (fs gs : Fields) : Type 0 where
  pub name : string_at "Name" (some fs) ≡ string_at "Name" (some gs)
  pub image : string_at "Image" (some fs) ≡ string_at "Image" (some gs)
  pub env : texts_at "Env" (of_config fs) ≡ texts_at "Env" (of_config gs)
  pub labels :
      labels_of (object_at "Labels" (of_config fs)) ≡ labels_of (object_at "Labels" (of_config gs))
  pub volumes : texts_at "Binds" (of_host fs) ≡ texts_at "Binds" (of_host gs)
  pub ports :
      names_of (object_at "PortBindings" (of_host fs))
      ≡ names_of (object_at "PortBindings" (of_host gs))

abbrev pub label_part : String × String → String
label_part (k, v) = " -l " <> k <> "=" <> v

-- The reference: the parts of the command, in their order, as the output shows them.
abbrev pub command_parts : Fields → List String
command_parts fs =
    ("docker run -d --name "
      <> trim_prefix (string_at "Name" (some fs)) "/"
      <> " --restart unless-stopped")
    ∷ (map (λ e. " -e '" <> e <> "'") (texts_at "Env" (of_config fs))
        ++ (map (λ p. " -p " <> p) (names_of (object_at "PortBindings" (of_host fs)))
            ++ (map (λ v. " -v " <> v) (texts_at "Binds" (of_host fs))
                ++ (map label_part (labels_of (object_at "Labels" (of_config fs)))
                    ++ ((" " <> string_at "Image" (some fs)) ∷ [])))))
