-- ===== src/Tests/Settings.antt =====
-- Loading the example's manifest.
use ghost_ship.Base.{◌≡◌, refl, ◌≢◌, inl, true, Result, ok, err, none, some, arith}
use ghost_ship.Config.{apply_defaults, validate, load}
use ghost_ship.Config.Laws.{Loaded, load-ok_iff}
use ghost_ship.Tests.Node.{node, disk, parser, config_path}

pub loads : load disk parser config_path ≡ ok (apply_defaults node)
unfolding load validate apply_defaults
loads = refl

missing_file : load disk parser "x" ≡ err "config: read \"x\": no such file"
unfolding load ghost_ship.Base.Text.quote
missing_file = refl

load-ok_iff_example : Loaded disk parser config_path (apply_defaults node)
load-ok_iff_example = (load-ok_iff disk parser config_path (apply_defaults node)).0 loads
