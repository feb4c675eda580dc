-- ===== src/Base/Text.antt =====
-- Package strings. A Go string, or a byte slice, is a text whose characters are its bytes, so
-- `count` is Go's `len`. White space is that of ASCII.
pub mod Laws
pub mod Split
pub mod Words
use Prim.Native.Nat.{ℕ, zero, suc, ◌+◌, ◌/◌, ◌%◌}
use Prim.Native.Char.{Char, code}
use Prim.Native.String.{String, [], ◌∷◌, ◌++◌ as ◌<>◌, count, len, slice}
use mathlib.Core.Path.{◌≡◌, refl}
use mathlib.Core.Bool.{Bool, true, false, ◌&&◌, ◌||◌}
use mathlib.Core.List.{List, [], ◌∷◌}
use text.Mathlib.Text.{starts_with}
use ghost_ship.Base.Tests.{ltb, leb, eqb, if◌then◌else◌}

-- `len(s) > 0`
abbrev pub nonempty : String → Bool
nonempty s = ltb 0 (count s)

unfoldable pub is_space : Char → Bool
is_space c = eqb (code c) 32 || (leb 9 (code c) && leb (code c) 13)

unfoldable pub trim_left : String → String
unfolding is_space
trim_left [] = []
trim_left (c ∷ s) = if is_space c then trim_left s else c ∷ s

abbrev is_nil : String → Bool
is_nil [] = true
is_nil (c ∷ s) = false

unfoldable pub trim_right : String → String
unfolding is_space
trim_right [] = []
trim_right (c ∷ s) = let rest = trim_right s in if is_space c && is_nil rest then [] else c ∷ rest

-- `strings.TrimSpace`
unfoldable pub trim_space : String → String
unfolding trim_left trim_right
trim_space s = trim_right (trim_left s)

abbrev push : String → Char → String
push s c = s <> String.◌∷◌ c ""

-- The parts of a text between the separators, and the part that is being read.
split_from : ℕ → String → String → List String
split_from sep part [] = part ∷ []
split_from sep part (c ∷ s) =
    let closed : List String = part ∷ split_from sep "" s in
    let longer = split_from sep (push part c) s in if eqb (code c) sep then closed else longer

-- `strings.Split` at a separator of one byte
unfoldable pub split : ℕ → String → List String
unfolding split_from
split sep s = split_from sep "" s

-- `"\n"`
abbrev pub newline : ℕ
newline = 10

abbrev keep_field : String → List String → List String
keep_field part rest = if is_nil part then rest else part ∷ rest

fields_from : String → String → List String
unfolding is_space
fields_from part [] = keep_field part []
fields_from part (c ∷ s) =
    let closed : List String = keep_field part (fields_from "" s) in
    let longer = fields_from (push part c) s in if is_space c then closed else longer

-- `strings.Fields`
unfoldable pub fields : String → List String
unfolding fields_from
fields s = fields_from "" s

-- `strings.TrimPrefix`
unfoldable pub trim_prefix : String → String → String
trim_prefix s prefix = if starts_with s prefix then slice s (len prefix) (len s) else s

-- `s[:n]` for n up to the length
unfoldable pub first_bytes : ℕ → String → String
first_bytes zero s = ""
first_bytes (suc n) [] = ""
first_bytes (suc n) (c ∷ s) = c ∷ first_bytes n s

-- `s[n:]`
unfoldable pub rest_bytes : ℕ → String → String
rest_bytes zero s = s
rest_bytes (suc n) [] = ""
rest_bytes (suc n) (c ∷ s) = rest_bytes n s

-- `strings.Contains`
unfoldable pub has_infix : String → String → Bool
has_infix [] t = starts_with [] t
has_infix (c ∷ s) t = starts_with (c ∷ s) t || has_infix s t

-- `strings.Join`
unfoldable pub join : String → List String → String
join sep [] = ""
join sep (x ∷ []) = x
join sep (x ∷ y ∷ xs) = x <> sep <> join sep (y ∷ xs)

hex_digit : ℕ → String
hex_digit d = slice "0123456789abcdef" d (d + 1)

escape_char : Char → String
unfolding hex_digit
escape_char c =
    if eqb (code c) 34
    then "\\\""
    else if eqb (code c) 92
    then "\\\\"
    else if eqb (code c) 7
    then "\\a"
    else if eqb (code c) 8
    then "\\b"
    else if eqb (code c) 12
    then "\\f"
    else if eqb (code c) 10
    then "\\n"
    else if eqb (code c) 13
    then "\\r"
    else if eqb (code c) 9
    then "\\t"
    else if eqb (code c) 11
    then "\\v"
    else if ltb (code c) 32 || eqb (code c) 127
    then "\\x" <> hex_digit (code c / 16) <> hex_digit (code c % 16)
    else String.◌∷◌ c ""

escape : String → String
unfolding escape_char
escape [] = ""
escape (c ∷ s) = escape_char c <> escape s

-- The verb %q; bytes beyond ASCII stand as they are.
unfoldable pub quote : String → String
unfolding escape
quote s = "\"" <> escape s <> "\""

samples :
    (trim_space " ab \n" ≡ "ab")
    × (split newline "a\n\nb" ≡ "a" ∷ "" ∷ "b" ∷ [])
    × (split newline "" ≡ "" ∷ [])
    × (fields "  a bc\n" ≡ "a" ∷ "bc" ∷ [])
    × (has_infix "inactive" "active" ≡ true)
    × (has_infix "failed" "active" ≡ false)
    × (quote "a\"\n" ≡ "\"a\\\"\\n\"")
unfolding trim_space split fields has_infix quote
samples = (refl, refl, refl, refl, refl, refl, refl)
