-- ===== src/Base/Sort/Laws.antt =====
-- The order of texts, and why sorting forgets the order of its input.
use Prim.Native.String.{String, [], ◌∷◌}
use mathlib.Core.Path.{◌≡◌, refl, ◌∙◌}
use mathlib.Core.Bool.{true}
use mathlib.Core.Logic.{◌⊎◌, inl, inr, ∥∥₁_elim}
use mathlib.Core.List.{List, [], ◌∷◌, Perm, Permᴰ}
use mathlib.Core.List.Perm
use native.Mathlib.Omega.{arith}
use text.Mathlib.TextEquality.{Char-path, IsScalar-prop}
use ghost_ship.Base.Tests.{Bool-cases}
use ghost_ship.Base.Sort.{le_text, insert_text, sort_strings}

pub le_text_total : (s t : String) → (le_text s t ≡ true) ⊎ (le_text t s ≡ true)
unfolding le_text
le_text_total [] t = inl refl
le_text_total (c ∷ s) [] = inr refl
le_text_total (c ∷ s) (d ∷ t) = ground (arith, le_text_total s t)

pub le_text_trans : (s t u : String) → le_text s t ≡ true → le_text t u ≡ true → le_text s u ≡ true
unfolding le_text
le_text_trans [] t u h k = refl
le_text_trans (c ∷ s) [] u h k = cc
le_text_trans (c ∷ s) (d ∷ t) [] h k = cc
le_text_trans (c ∷ s) (d ∷ t) (e ∷ u) h k = ground (arith, le_text_trans s t u)

pub le_text_antisymm : (s t : String) → le_text s t ≡ true → le_text t s ≡ true → s ≡ t
unfolding le_text
le_text_antisymm [] [] h k = refl
le_text_antisymm [] (d ∷ t) h k = cc
le_text_antisymm (c ∷ s) [] h k = cc
le_text_antisymm (c ∷ s) (d ∷ t) h k =
    cc (Char-path c d (ground arith), le_text_antisymm s t (ground arith) (ground arith))

-- Inserting two texts in either order gives one list.
insert_text_comm :
    (x y : String) (l : List String)
    → insert_text x (insert_text y l) ≡ insert_text y (insert_text x l)
unfolding insert_text
insert_text_comm x y [] = ground (arith, le_text_total x y, le_text_antisymm x y)
insert_text_comm x y (z ∷ l) = ground (
  arith,
  le_text_total x y,
  le_text_antisymm x y,
  le_text_trans x y z,
  le_text_trans y x z,
  insert_text_comm x y l,
)

sort_strings-eq_of_Permᴰ : {l m : List String} → Permᴰ l m → sort_strings l ≡ sort_strings m
unfolding sort_strings
sort_strings-eq_of_Permᴰ Permᴰ.nil = refl
sort_strings-eq_of_Permᴰ (Permᴰ.cons e p) = cc (e, sort_strings-eq_of_Permᴰ p)
sort_strings-eq_of_Permᴰ (Permᴰ.swap {a} {b} {l = l} e f) =
    insert_text_comm a b (sort_strings l) ∙ cc (e, f)
sort_strings-eq_of_Permᴰ (Permᴰ.trans p q) = sort_strings-eq_of_Permᴰ p ∙ sort_strings-eq_of_Permᴰ q

texts_set : IsSet (List String)
texts_set = hlevel IsScalar-prop

-- Sorting forgets the order of the list.
pub sort_strings-eq_of_perm : {l m : List String} → Perm l m → sort_strings l ≡ sort_strings m
sort_strings-eq_of_perm p = ∥∥₁_elim p (texts_set _ _) sort_strings-eq_of_Permᴰ

insert_text-perm : (x : String) (l : List String) → Perm (insert_text x l) (x ∷ l)
unfolding insert_text
insert_text-perm x [] = Perm.refl _
insert_text-perm x (y ∷ l) = elim (Bool-cases (le_text x y)) [
  | inl h ↦ rw h (Perm.refl _)
  | inr h ↦ rw h (Perm.trans (Perm.cons y (insert_text-perm x l)) (Perm.swap x y l))
]

pub sort_strings-perm : (l : List String) → Perm (sort_strings l) l
unfolding sort_strings
sort_strings-perm [] = Perm.refl []
sort_strings-perm (x ∷ l) =
    Perm.trans (insert_text-perm x (sort_strings l)) (Perm.cons x (sort_strings-perm l))

-- Each text is at most the next one.
abbrev pub IsSorted : List String → Type 0
IsSorted [] = Unit
IsSorted (x ∷ []) = Unit
IsSorted (x ∷ y ∷ l) = (le_text x y ≡ true) × IsSorted (y ∷ l)

insert_text-IsSorted : (x : String) (l : List String) → IsSorted l → IsSorted (insert_text x l)
unfolding insert_text
insert_text-IsSorted x [] h = tt
insert_text-IsSorted x (y ∷ []) h = ground (arith, le_text_total x y)
insert_text-IsSorted x (y ∷ z ∷ l) h =
    ground (arith, le_text_total x y, insert_text-IsSorted x (z ∷ l))

pub sort_strings-IsSorted : (l : List String) → IsSorted (sort_strings l)
unfolding sort_strings
sort_strings-IsSorted [] = tt
sort_strings-IsSorted (x ∷ l) = insert_text-IsSorted x (sort_strings l) (sort_strings-IsSorted l)
