-- ===== src/Base/Decimal/RoundTrip.antt =====
-- Numbers read back from their decimal print.
use Prim.Native.Nat.{ℕ, zero, suc, ◌+◌, ◌-◌, ◌*◌, ◌/◌, ◌%◌, ◌^◌, ◌≤◌, ◌<◌}
use Prim.Native.Char.{Char, code}
use Prim.Native.String.{String, [], ◌∷◌, ◌++◌ as ◌<>◌}
use mathlib.Core.Path.{◌≡◌, refl, sym, ap, ◌∙◌}
use mathlib.Core.Logic.{◌≢◌, inl, inr}
use mathlib.Core.Option.{some}
use native.Mathlib.Omega.{arith}
use text.Mathlib.TextLemmas.{cons-append, nil-append, append-nil, append_assoc, cons-ne-nil}
use ghost_ship.Base.Tests.{ok, ltb, Bool-cases}
use ghost_ship.Base.Int.{pos}
use ghost_ship.Base.Decimal.{digit, decimal, format_nat, digits_value, bounded, signed, atoi}

abbrev pub IsDigits : String → Type 0
IsDigits [] = Unit
IsDigits (c ∷ s) = (48 ≤ code c) × (code c ≤ 57) × IsDigits s

digit_char : (d : ℕ) → d < 10 → (c : Char) × (digit d ≡ String.◌∷◌ c "") × (code c ≡ 48 + d)
unfolding digit
digit_char zero _ = ("0", refl, refl)
digit_char (suc zero) _ = ("1", refl, refl)
digit_char (suc (suc zero)) _ = ("2", refl, refl)
digit_char (suc (suc (suc zero))) _ = ("3", refl, refl)
digit_char (suc (suc (suc (suc zero)))) _ = ("4", refl, refl)
digit_char (suc (suc (suc (suc (suc zero))))) _ = ("5", refl, refl)
digit_char (suc (suc (suc (suc (suc (suc zero)))))) _ = ("6", refl, refl)
digit_char (suc (suc (suc (suc (suc (suc (suc zero))))))) _ = ("7", refl, refl)
digit_char (suc (suc (suc (suc (suc (suc (suc (suc zero)))))))) _ = ("8", refl, refl)
digit_char (suc (suc (suc (suc (suc (suc (suc (suc (suc zero))))))))) _ = ("9", refl, refl)
digit_char (suc (suc (suc (suc (suc (suc (suc (suc (suc (suc n)))))))))) h = absurd (omega arith)

one_append : (c : Char) (t : String) → String.◌∷◌ c "" <> t ≡ String.◌∷◌ c t
one_append c t = cons-append c "" t ∙ ap (λ (x : String). String.◌∷◌ c x) (nil-append t)

value-digit :
    (acc d : ℕ) (t : String)
    → d < 10
    → digits_value acc (digit d <> t) ≡ digits_value (acc * 10 + d) t
unfolding digits_value
value-digit acc d t h = let (c, e, v) = digit_char d h in rw (e, one_append c t) (ground (arith, v))

value-decimal :
    (f n : ℕ) (t : String) → n < f → digits_value 0 (decimal f n <> t) ≡ digits_value n t
unfolding decimal
value-decimal zero n t h = absurd (omega arith)
value-decimal (suc f) n t h = elim (Bool-cases (ltb n 10)) [
  | inl p ↦
      rw (decimal, p)
        (value-digit 0 n t (ground arith) ∙ ap (λ (m : ℕ). digits_value m t) (omega arith))
  | inr p ↦
      rw (decimal, p, append_assoc (decimal f (n / 10)) (digit (n % 10)) t)
        (value-decimal f (n / 10) (digit (n % 10) <> t) (ground arith)
          ∙ value-digit (n / 10) (n % 10) t (omega arith)
          ∙ ap (λ (m : ℕ). digits_value m t) (omega arith))
]

IsDigits-append : (s t : String) → IsDigits s → IsDigits t → IsDigits (s <> t)
IsDigits-append [] t hs ht = rw (nil-append t) ht
IsDigits-append (c ∷ s) t (a, b, hs) ht =
    rw (cons-append c s t, IsDigits) (a, b, IsDigits-append s t hs ht)

digit-IsDigits : (d : ℕ) → d < 10 → IsDigits (digit d)
digit-IsDigits d h = let (c, e, v) = digit_char d h in rw e (omega (arith, v), omega (arith, v), tt)

decimal-IsDigits : (f n : ℕ) → IsDigits (decimal f n)
unfolding decimal
decimal-IsDigits zero n = tt
decimal-IsDigits (suc f) n = elim (Bool-cases (ltb n 10)) [
  | inl p ↦ rw (IsDigits, p) (digit-IsDigits n (ground arith))
  | inr p ↦
      rw (IsDigits, p)
        (IsDigits-append (decimal f (n / 10)) (digit (n % 10)) (decimal-IsDigits f (n / 10))
          (digit-IsDigits (n % 10) (omega arith)))
]

pub format_nat-IsDigits : (n : ℕ) → IsDigits (format_nat n)
unfolding format_nat
format_nat-IsDigits n = decimal-IsDigits (suc n) n

value-format_nat : (n : ℕ) → digits_value 0 (format_nat n) ≡ some n
unfolding format_nat digits_value
value-format_nat n =
    ap (λ (s : String). digits_value 0 s) (sym (append-nil (decimal (suc n) n)))
    ∙ value-decimal (suc n) n "" (omega arith)

pub format_nat-ne-nil : (n : ℕ) → format_nat n ≢ ""
unfolding format_nat decimal digits_value digit
format_nat-ne-nil n e =
    let zero_value : some n ≡ some 0 =
      sym (value-format_nat n) ∙ ap (λ (s : String). digits_value 0 s) e in
    let is_zero : n ≡ 0 = ground (arith, zero_value) in
    cons-ne-nil "0" "" (ap format_nat (sym is_zero) ∙ e)

atoi_digits :
    (s : String) (n : ℕ)
    → s ≢ ""
    → IsDigits s
    → digits_value 0 s ≡ some n
    → n ≤ 2 ^ 63 - 1
    → atoi s ≡ ok (pos n)
unfolding atoi bounded signed
atoi_digits [] n h d v b = absurd (h refl)
atoi_digits (c ∷ s) n h (lo, hi, d) v b = ground (arith, v)

-- A number of at most 63 bits is read back.
pub atoi-format_nat : (n : ℕ) → n ≤ 2 ^ 63 - 1 → atoi (format_nat n) ≡ ok (pos n)
atoi-format_nat n b =
    atoi_digits (format_nat n) n (format_nat-ne-nil n) (format_nat-IsDigits n) (value-format_nat n)
      b
