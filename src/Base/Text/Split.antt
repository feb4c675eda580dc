-- ===== src/Base/Text/Split.antt =====
-- Splitting at a separator, and the first bytes of a text.
use Prim.Native.Nat.{ℕ, zero, suc, ◌≤◌}
use Prim.Native.Char.{Char, code}
use Prim.Native.String.{String, [], ◌∷◌, ◌++◌ as ◌<>◌, count}
use mathlib.Core.Path.{◌≡◌, refl, sym, ap, ◌∙◌}
use mathlib.Core.Logic.{◌↔◌, ◌≢◌, inl, inr}
use mathlib.Core.Bool.{true, false}
use mathlib.Core.List.{[], ◌∷◌}
use native.Mathlib.Omega.{arith}
use text.Mathlib.TextLemmas.{cons-append, nil-append, append-nil, append_assoc, length-cons}
use text.Mathlib.Text.{starts_with, ◌==◌}
use text.Mathlib.TextEquality.{starts_with_iff}
use ghost_ship.Base.Tests.{eqb, Bool-cases, eq-false_iff}
use ghost_ship.Base.Text.{rest_bytes, push, split_from, split, first_bytes}

-- No byte of the text is the separator.
abbrev pub Lacks : ℕ → String → Type 0
Lacks sep [] = Unit
Lacks sep (c ∷ s) = (eqb (code c) sep ≡ false) × Lacks sep s

pub glue : (p s : String) (c : Char) → push p c <> s ≡ p <> String.◌∷◌ c s
glue p s c =
    append_assoc p (String.◌∷◌ c "") s
    ∙ ap (λ (x : String). p <> x)
        (cons-append c "" s ∙ ap (λ (x : String). String.◌∷◌ c x) (nil-append s))

split_from-Lacks :
    (sep : ℕ) (part s : String) → Lacks sep s → split_from sep part s ≡ (part <> s) ∷ []
unfolding split_from
split_from-Lacks sep part [] h = ap (λ (x : String). x ∷ []) (sym (append-nil part))
split_from-Lacks sep part (c ∷ s) (p, h) =
    rw (p, split_from-Lacks sep (push part c) s h, glue part s c) refl

split_from-join :
    (sep : ℕ) (part s t : String) (c : Char)
    → Lacks sep s
    → eqb (code c) sep ≡ true
    → split_from sep part (s <> String.◌∷◌ c t) ≡ (part <> s) ∷ split_from sep "" t
unfolding split_from
split_from-join sep part [] t c h e =
    rw (nil-append (String.◌∷◌ c t), split_from, e, append-nil part) refl
split_from-join sep part (d ∷ s) t c (p, h) e =
    rw
      (
        cons-append d s (String.◌∷◌ c t),
        split_from,
        p,
        split_from-join sep (push part d) s t c h e,
        glue part s d,
      )
      refl

pub first_bytes-append : (s t : String) → first_bytes (count s) (s <> t) ≡ s
unfolding first_bytes
first_bytes-append [] t = refl
first_bytes-append (c ∷ s) t =
    rw (length-cons c s, cons-append c s t, first_bytes, first_bytes-append s t) refl

pub rest_bytes-append : (s t : String) → rest_bytes (count s) (s <> t) ≡ t
unfolding rest_bytes
rest_bytes-append [] t = nil-append t
rest_bytes-append (c ∷ s) t =
    rw (length-cons c s, cons-append c s t, rest_bytes, rest_bytes-append s t) refl

-- Two parts of a text make the whole.
pub first_bytes-rest_bytes : (n : ℕ) (s : String) → first_bytes n s <> rest_bytes n s ≡ s
unfolding first_bytes rest_bytes
first_bytes-rest_bytes zero s = nil-append s
first_bytes-rest_bytes (suc n) [] = nil-append ""
first_bytes-rest_bytes (suc n) (c ∷ s) =
    cons-append c (first_bytes n s) (rest_bytes n s)
    ∙ ap (λ (x : String). String.◌∷◌ c x) (first_bytes-rest_bytes n s)

bytes_rest : (n : ℕ) (s : String) → n ≤ count s → (t : String) × (s ≡ first_bytes n s <> t)
unfolding first_bytes
bytes_rest zero s h = (s, sym (nil-append s))
bytes_rest (suc n) [] h = absurd (omega arith)
bytes_rest (suc n) (c ∷ s) h =
    let (t, e) = bytes_rest n s (omega (arith, length-cons c s)) in
    (t, ap (λ (x : String). String.◌∷◌ c x) e ∙ sym (cons-append c (first_bytes n s) t))

-- Two parts without the separator are taken apart again.
pub split-two :
    (sep : ℕ) (s t : String) (c : Char)
    → Lacks sep s
    → Lacks sep t
    → eqb (code c) sep ≡ true
    → split sep (s <> String.◌∷◌ c t) ≡ s ∷ t ∷ []
unfolding split
split-two sep s t c hs ht e =
    rw (split_from-join sep "" s t c hs e, split_from-Lacks sep "" t ht, nil-append s, nil-append t)
      refl

pub first_bytes-starts_with_iff :
    (s t : String) → count t ≤ count s → (first_bytes (count t) s ≡ t) ↔ (starts_with s t ≡ true)
first_bytes-starts_with_iff s t h = (
  λ p.
      let (u, e) = bytes_rest (count t) s h in
      (starts_with_iff s t).1 (u, ap (λ (x : String). x <> u) (sym p) ∙ sym e),
  λ p.
      let (u, e) = (starts_with_iff s t).0 p in
      ap (λ (x : String). first_bytes (count t) x) (sym e) ∙ first_bytes-append t u,
)

pub first_bytes-within :
    (n : ℕ) (p s : String) → n ≤ count p → first_bytes n (p <> s) ≡ first_bytes n p
unfolding first_bytes
first_bytes-within zero p s h = refl
first_bytes-within (suc n) [] s h = absurd (omega arith)
first_bytes-within (suc n) (c ∷ p) s h =
    rw (cons-append c p s, first_bytes, first_bytes-within n p s (omega (arith, length-cons c p)))
      refl

-- Texts that begin with different bytes are not prefixes of each other, and not the same.
pub starts_with-differ :
    (n : ℕ) (p q s : String)
    → n ≤ count p
    → n ≤ count q
    → first_bytes n p ≢ first_bytes n q
    → starts_with (p <> s) q ≡ false
starts_with-differ n p q s hp hq d = elim (Bool-cases (starts_with (p <> s) q)) [
  | inr r ↦ r
  | inl r ↦
      let (u, e) = (starts_with_iff (p <> s) q).0 r in
      absurd (
        d (
          sym (first_bytes-within n p s hp)
          ∙ ap (first_bytes n) (sym e)
          ∙ first_bytes-within n q u hq))
]

pub eq-differ :
    (n : ℕ) (p q s : String)
    → n ≤ count p
    → first_bytes n p ≢ first_bytes n q
    → (p <> s == q) ≡ false
eq-differ n p q s hp d =
    (eq-false_iff (p <> s) q).1 (λ e. d (sym (first_bytes-within n p s hp) ∙ ap (first_bytes n) e))
