-- ===== src/Base/Text/Laws.antt =====
-- Trimming: what it leaves, and that white space at the end does not matter.
use Prim.Native.String.{String, [], ◌∷◌, ◌++◌ as ◌<>◌}
use mathlib.Core.Path.{◌≡◌, refl, sym, ap, ◌∙◌}
use mathlib.Core.Logic.{◌⊎◌, ◌↔◌, inl, inr}
use mathlib.Core.Bool.{Bool, true, false, ◌||◌}
use native.Mathlib.Omega.{arith}
use text.Mathlib.TextLemmas.{cons-append, nil-append}
use text.Mathlib.Text.{starts_with}
use text.Mathlib.TextEquality.{starts_with_iff}
use text.Mathlib.TextPositions.{starts_with-append}
use ghost_ship.Base.Tests.{Bool-cases}
use ghost_ship.Base.Text.{is_space, trim_left, trim_right, trim_space, has_infix}

trim_right-newline : (s : String) → trim_right (s <> "\n") ≡ trim_right s
unfolding trim_right
trim_right-newline [] = refl
trim_right-newline (c ∷ s) = rw (cons-append c s "\n", trim_right, trim_right-newline s) refl

trim_left-newline :
    (s : String)
    → (trim_left (s <> "\n") ≡ trim_left s <> "\n")
      ⊎ ((trim_left (s <> "\n") ≡ "") × (trim_left s ≡ ""))
unfolding trim_left
trim_left-newline [] = inr (refl, refl)
trim_left-newline (c ∷ s) = elim (Bool-cases (is_space c)) [
  | inl h ↦ rw (cons-append c s "\n", trim_left, h) (trim_left-newline s)
  | inr h ↦ inl (rw (cons-append c s "\n", trim_left, h) (sym (cons-append c s "\n")))
]

-- A newline at the end is trimmed away.
pub trim_space-newline : (s : String) → trim_space (s <> "\n") ≡ trim_space s
unfolding trim_space
trim_space-newline s = elim (trim_left-newline s) [
  | inl p ↦ rw p (trim_right-newline (trim_left s))
  | inr p ↦ rw (p.0, p.1) refl
]

Bool-or_true : (b : Bool) → (b || true) ≡ true
Bool-or_true true = refl
Bool-or_true false = refl

pub has_infix_of_start : (s t : String) → starts_with s t ≡ true → has_infix s t ≡ true
unfolding has_infix
has_infix_of_start [] t h = h
has_infix_of_start (c ∷ s) t h = ground arith

pub has_infix-append : (p s t : String) → has_infix s t ≡ true → has_infix (p <> s) t ≡ true
unfolding has_infix
has_infix-append [] s t h = rw nil-append h
has_infix-append (c ∷ p) s t h =
    rw (cons-append c p s, has_infix, has_infix-append p s t h) (Bool-or_true _)

start_parts :
    (s t : String) → starts_with s t ≡ true → (p : String) × (u : String) × (s ≡ p <> (t <> u))
start_parts s t h =
    let (u, e) = (starts_with_iff s t).0 h in ("", u, sym e ∙ sym (nil-append (t <> u)))

infix_parts :
    (s t : String) → has_infix s t ≡ true → (p : String) × (u : String) × (s ≡ p <> (t <> u))
unfolding has_infix
infix_parts [] t h = start_parts [] t h
infix_parts (c ∷ s) t h = elim (Bool-cases (starts_with (c ∷ s) t)) [
  | inl first ↦ start_parts (c ∷ s) t first
  | inr later ↦
      let (p, u, e) = infix_parts s t (ground arith) in
      (c ∷ p, u, ap (λ r. c ∷ r) e ∙ sym (cons-append c p (t <> u)))
]

-- `strings.Contains` finds exactly the texts that stand somewhere in the other.
pub has_infix_iff :
    (s t : String) → (has_infix s t ≡ true) ↔ ((p : String) × (u : String) × (s ≡ p <> (t <> u)))
has_infix_iff s t = (
  infix_parts s t,
  λ (p, u, e).
      rw e (has_infix-append p (t <> u) t (has_infix_of_start (t <> u) t (starts_with-append t u))),
)
