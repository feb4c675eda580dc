-- ===== src/Nomad/Json.antt =====
-- Values of encoding/json, as the code takes them apart: a decoded map has each key once, and a type
-- assertion that fails gives nothing. Decoding is a parameter of the code that uses it.
use ghost_ship.Base.{String, Bool, Option, none, some, List, [], ◌∷◌, ◌==◌, if◌then◌else◌}
use ghost_ship.Base.Dict.{Dict, insert}

mutual
  pub data Json : Type 0 where
    null : Json
    bool : Bool → Json
    num : String → Json
    str : String → Json
    arr : Items → Json
    obj : Fields → Json

  pub data Items : Type 0 where
    nil : Items
    cons : Json → Items → Items

  pub data Fields : Type 0 where
    end : Fields
    field : String → Json → Fields → Fields

-- `m[key]`
unfoldable pub get : String → Fields → Option Json
get key end = none
get key (field k v fs) = if k == key then some v else get key fs

-- The type assertions `v.(string)`, `v.(map[string]interface{})` and `v.([]interface{})`.
abbrev pub as_string : Option Json → Option String
as_string (some (str s)) = some s
as_string _ = none

abbrev pub as_object : Option Json → Option Fields
as_object (some (obj fs)) = some fs
as_object _ = none

abbrev pub as_array : Option Json → Option Items
as_array (some (arr xs)) = some xs
as_array _ = none

-- The members of a map, and of an array, that are texts.
unfoldable pub texts_of : Items → List String
texts_of nil = []
texts_of (cons (str s) xs) = s ∷ texts_of xs
texts_of (cons _ xs) = texts_of xs

unfoldable pub text_fields : Fields → Dict String
text_fields end = []
text_fields (field k (str s) fs) = insert k s (text_fields fs)
text_fields (field k _ fs) = text_fields fs

unfoldable pub field_names : Fields → List String
field_names end = []
field_names (field k v fs) = k ∷ field_names fs

unfoldable pub objects_of : Items → List Fields
objects_of nil = []
objects_of (cons (obj fs) xs) = fs ∷ objects_of xs
objects_of (cons _ xs) = objects_of xs

-- `if v, ok := ...; ok { x = v }`
abbrev pub or_default {ℓ} : {A : Type ℓ} → A → Option A → A
or_default d none = d
or_default d (some a) = a
