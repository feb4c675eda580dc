-- ===== src/Base/Order.antt =====
-- The order of a range over a map, which Go's runtime chooses: the rows in an order that is given by
-- picks.
use ghost_ship.Base.Tests.{Bool-cases}
use ghost_ship.Base.Lists.{All}
use ghost_ship.Base.Dict.{Dict, lookup, NodupKeys}
use Prim.Native.Nat.{ℕ, zero, suc}
use Prim.Native.String.{String}
use mathlib.Core.Path.{◌≡◌, refl, ◌∙◌}
use mathlib.Core.List.{List, [], ◌∷◌}
use mathlib.Core.Option.{none}
use mathlib.Core.Logic.{inl, inr}
use native.Mathlib.Omega.{arith}
use text.Mathlib.Text.{◌==◌}
use text.Mathlib.TextEquality.{eq_iff}

module _ {ℓ} {A : Type ℓ} where
  unfoldable pub put_at : ℕ → A → List A → List A
  put_at zero x ys = x ∷ ys
  put_at (suc n) x [] = x ∷ []
  put_at (suc n) x (y ∷ ys) = y ∷ put_at n x ys

  -- Each row goes behind as many of the rows after it as its pick says, so that every order of the
  -- rows has its picks.
  unfoldable pub shuffled : List ℕ → List A → List A
  unfolding put_at
  shuffled picks [] = []
  shuffled [] (x ∷ xs) = x ∷ shuffled [] xs
  shuffled (n ∷ picks) (x ∷ xs) = put_at n x (shuffled picks xs)

module _ {ℓ κ} {A : Type ℓ} (P : A → Type κ) where
  All-put_at : (n : ℕ) (x : A) (ys : List A) → P x → All P ys → All P (put_at n x ys)
  unfolding put_at
  All-put_at zero x ys p h = (p, h)
  All-put_at (suc n) x [] p h = (p, h)
  All-put_at (suc n) x (y ∷ ys) p (q, h) = (q, All-put_at n x ys p h)

  pub All-shuffled : (picks : List ℕ) (xs : List A) → All P xs → All P (shuffled picks xs)
  unfolding shuffled
  All-shuffled [] [] h = h
  All-shuffled (n ∷ picks) [] h = h
  All-shuffled [] (x ∷ xs) (p, h) = (p, All-shuffled [] xs h)
  All-shuffled (n ∷ picks) (x ∷ xs) (p, h) =
      All-put_at n x (shuffled picks xs) p (All-shuffled picks xs h)

module _ {ℓ} {V : Type ℓ} where
  lookup-put_at :
      (n : ℕ) (k j : String) (v : V) (d : Dict V)
      → lookup k d ≡ none
      → lookup j (put_at n (k, v) d) ≡ lookup j ((k, v) ∷ d)
  unfolding put_at lookup
  lookup-put_at zero k j v d h = refl
  lookup-put_at (suc n) k j v [] h = refl
  lookup-put_at (suc n) k j v ((i, w) ∷ d) h = elim (Bool-cases (i == k)) [
    | inl p ↦ absurd (ground (arith, h, p))
    | inr p ↦
        let rest = lookup-put_at n k j v d (ground (arith, h, p)) in
        ground (arith, rest, p, eq_iff i j, eq_iff k j, eq_iff i k)
  ]

  NodupKeys-put_at :
      (n : ℕ) (k : String) (v : V) (d : Dict V)
      → lookup k d ≡ none
      → NodupKeys d
      → NodupKeys (put_at n (k, v) d)
  unfolding put_at lookup
  NodupKeys-put_at zero k v d h u = (h, u)
  NodupKeys-put_at (suc n) k v [] h u = (h, u)
  NodupKeys-put_at (suc n) k v ((i, w) ∷ d) h (fresh, u) = elim (Bool-cases (i == k)) [
    | inl p ↦ absurd (ground (arith, h, p))
    | inr p ↦
        let absent : lookup k d ≡ none = ground (arith, h, p) in
        let rest = lookup-put_at n k i v d absent in
        (ground (arith, rest, fresh, p, eq_iff k i, eq_iff i k), NodupKeys-put_at n k v d absent u)
  ]

  -- A map has the same keys and values in every order.
  pub lookup-shuffled :
      (picks : List ℕ) (j : String) (d : Dict V)
      → NodupKeys d
      → lookup j (shuffled picks d) ≡ lookup j d
  unfolding shuffled lookup
  lookup-shuffled [] j [] u = refl
  lookup-shuffled (n ∷ picks) j [] u = refl
  lookup-shuffled [] j ((k, v) ∷ d) (fresh, u) = ground (arith, lookup-shuffled [] j d u)
  lookup-shuffled (n ∷ picks) j ((k, v) ∷ d) (fresh, u) =
      lookup-put_at n k j v (shuffled picks d) (lookup-shuffled picks k d u ∙ fresh)
      ∙ ground (arith, lookup-shuffled picks j d u)

  pub NodupKeys-shuffled :
      (picks : List ℕ) (d : Dict V) → NodupKeys d → NodupKeys (shuffled picks d)
  unfolding shuffled
  NodupKeys-shuffled [] [] u = u
  NodupKeys-shuffled (n ∷ picks) [] u = u
  NodupKeys-shuffled [] ((k, v) ∷ d) (fresh, u) =
      (lookup-shuffled [] k d u ∙ fresh, NodupKeys-shuffled [] d u)
  NodupKeys-shuffled (n ∷ picks) ((k, v) ∷ d) (fresh, u) =
      NodupKeys-put_at n k v (shuffled picks d) (lookup-shuffled picks k d u ∙ fresh)
        (NodupKeys-shuffled picks d u)
