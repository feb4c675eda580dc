-- ===== src/Base/FilePath.antt =====
-- Package path/filepath for `/`: Clean, Dir and Base.
use Prim.Native.String.{String, ◌++◌ as ◌<>◌}
use mathlib.Core.Path.{◌≡◌, refl}
use mathlib.Core.Bool.{Bool, true, false, ◌||◌}
use mathlib.Core.List.{List, [], ◌∷◌, reverse}
use text.Mathlib.Text.{◌==◌, starts_with}
use ghost_ship.Base.Tests.{if◌then◌else◌}
use ghost_ship.Base.Text.{split, join}

-- `..` at a stack that has its top at the head
climb : Bool → List String → List String
climb true [] = []
climb false [] = ".." ∷ []
climb rooted (top ∷ rest) = if top == ".." then ".." ∷ top ∷ rest else rest

resolve : Bool → List String → String → List String
unfolding climb
resolve rooted stack part =
    if part == "" || part == "."
    then stack
    else if part == ".."
    then climb rooted stack
    else part ∷ stack

resolve_all : Bool → List String → List String → List String
resolve_all rooted stack [] = stack
resolve_all rooted stack (part ∷ parts) = resolve_all rooted (resolve rooted stack part) parts

rebuild : Bool → List String → String
rebuild true parts = "/" <> join "/" parts
rebuild false [] = "."
rebuild false (p ∷ ps) = join "/" (p ∷ ps)

unfoldable pub clean : String → String
unfolding resolve resolve_all rebuild join split
clean path =
    let rooted : Bool = starts_with path "/" in
    rebuild rooted (reverse (resolve_all rooted [] (split b'/' path)))

-- The parts before the last one.
but_last : List String → List String
but_last [] = []
but_last (p ∷ []) = []
but_last (p ∷ q ∷ ps) = p ∷ but_last (q ∷ ps)

dir_part : List String → String
dir_part [] = ""
dir_part (p ∷ ps) = join "/" (p ∷ ps) <> "/"

-- `filepath.Dir`: all up to the last slash, cleaned
unfoldable pub dir : String → String
unfolding clean but_last dir_part
dir path = clean (dir_part (but_last (split b'/' path)))

last_part : String → List String → String
last_part found [] = found
last_part found (p ∷ ps) = last_part (if p == "" then found else p) ps

-- `filepath.Base`: the last part that is not empty
unfoldable pub base : String → String
unfolding last_part split
base path =
    if path == ""
    then "."
    else let part = last_part "" (split b'/' path) in if part == "" then "/" else part

samples :
    (dir "/etc/x-ui/xray.json" ≡ "/etc/x-ui")
    × (dir "/a" ≡ "/")
    × (dir "a" ≡ ".")
    × (dir "/a/../b//c/" ≡ "/b/c")
    × (base "/opt/x-ui/db/x-ui.db" ≡ "x-ui.db")
    × (base "/" ≡ "/")
unfolding dir base
samples = (refl, refl, refl, refl, refl, refl)
