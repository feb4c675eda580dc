-- ===== src/Base/Text/Words.antt =====
-- Fields between white space, and trimming of texts that have none.
use Prim.Native.Char.{Char}
use Prim.Native.String.{String, [], ◌∷◌, ◌++◌ as ◌<>◌}
use mathlib.Core.Path.{◌≡◌, refl, sym, ap, ◌∙◌}
use mathlib.Core.Logic.{◌≢◌, inl, inr}
use mathlib.Core.Bool.{true, false}
use mathlib.Core.List.{[], ◌∷◌}
use native.Mathlib.Omega.{arith}
use text.Mathlib.TextLemmas.{cons-append, nil-append, append-nil}
use ghost_ship.Base.Tests.{Bool-cases}
use ghost_ship.Base.Text.{
  is_space, is_nil, trim_left, trim_right, trim_space, push, keep_field, fields_from, fields,
}
use ghost_ship.Base.Text.Split.{glue}

-- No byte of the text is white space.
abbrev pub IsWord : String → Type 0
IsWord [] = Unit
IsWord (c ∷ s) = (is_space c ≡ false) × IsWord s

trim_right-IsWord : (s : String) → IsWord s → trim_right s ≡ s
unfolding trim_right
trim_right-IsWord [] h = refl
trim_right-IsWord (c ∷ s) (p, h) = rw (p, trim_right-IsWord s h) refl

trim_left-IsWord : (s : String) → IsWord s → trim_left s ≡ s
unfolding trim_left
trim_left-IsWord [] h = refl
trim_left-IsWord (c ∷ s) (p, h) = rw p refl

pub trim_space-IsWord : (s : String) → IsWord s → trim_space s ≡ s
unfolding trim_space
trim_space-IsWord s h = rw (trim_left-IsWord s h) (trim_right-IsWord s h)

is_nil_eq : (s : String) → is_nil s ≡ true → s ≡ ""
is_nil_eq [] h = refl
is_nil_eq (c ∷ s) h = absurd (ground arith)

fields_from-trim_right : (part s : String) → fields_from part (trim_right s) ≡ fields_from part s
unfolding fields_from trim_right
fields_from-trim_right part [] = refl
fields_from-trim_right part (c ∷ s) = elim (Bool-cases (is_space c)) [
  | inr p ↦ rw (p, fields_from, p, fields_from-trim_right (push part c) s) refl
  | inl p ↦ elim (Bool-cases (is_nil (trim_right s))) [
    | inr q ↦ rw (p, q, fields_from, p, fields_from-trim_right "" s) refl
    | inl q ↦
        let e : fields_from "" s ≡ [] =
          sym (fields_from-trim_right "" s) ∙ ap (fields_from "") (is_nil_eq (trim_right s) q) in
        rw (p, q, e) refl
  ]
]

fields_from-trim_left : (s : String) → fields_from "" (trim_left s) ≡ fields_from "" s
unfolding fields_from trim_left
fields_from-trim_left [] = refl
fields_from-trim_left (c ∷ s) = elim (Bool-cases (is_space c)) [
  | inl p ↦ rw p (fields_from-trim_left s)
  | inr p ↦ rw (p, fields_from, p) refl
]

-- Outer white space does not change the fields.
pub fields-trim_space : (s : String) → fields (trim_space s) ≡ fields s
unfolding fields trim_space
fields-trim_space s = fields_from-trim_right "" (trim_left s) ∙ fields_from-trim_left s

fields_from-word :
    (part w t : String) (c : Char)
    → IsWord w
    → is_space c ≡ true
    → fields_from part (w <> String.◌∷◌ c t) ≡ keep_field (part <> w) (fields_from "" t)
unfolding fields_from
fields_from-word part [] t c h e =
    rw (nil-append (String.◌∷◌ c t), fields_from, e, append-nil part) refl
fields_from-word part (d ∷ w) t c (p, h) e =
    rw
      (
        cons-append d w (String.◌∷◌ c t),
        fields_from,
        p,
        fields_from-word (push part d) w t c h e,
        glue part w d,
      )
      refl

-- A text that starts with a word and white space has the word as its first field.
pub fields-word :
    (w t : String) (c : Char)
    → w ≢ ""
    → IsWord w
    → is_space c ≡ true
    → fields (w <> String.◌∷◌ c t) ≡ w ∷ fields t
unfolding fields
fields-word [] t c n h e = absurd (n refl)
fields-word (d ∷ w) t c n h e =
    fields_from-word "" (d ∷ w) t c h e ∙ rw (nil-append (String.◌∷◌ d w)) refl
