-- ===== src/Base/Sort.antt =====
-- sort.Strings, as an insertion sort by bytes. The order is total, so every sort gives this list.
pub mod Laws
use Prim.Native.Char.{code}
use Prim.Native.String.{String, [], ◌∷◌}
use mathlib.Core.Bool.{Bool, true, false}
use mathlib.Core.List.{List, [], ◌∷◌}
use ghost_ship.Base.Tests.{ltb, eqb, if◌then◌else◌}

-- `s <= t`
unfoldable pub le_text : String → String → Bool
le_text [] t = true
le_text (c ∷ s) [] = false
le_text (c ∷ s) (d ∷ t) =
    let rest = le_text s t in
    if ltb (code c) (code d) then true else if eqb (code c) (code d) then rest else false

unfoldable pub insert_text : String → List String → List String
insert_text x [] = x ∷ []
insert_text x (y ∷ l) = if le_text x y then x ∷ y ∷ l else y ∷ insert_text x l

unfoldable pub sort_strings : List String → List String
unfolding insert_text le_text
sort_strings [] = []
sort_strings (x ∷ l) = insert_text x (sort_strings l)
