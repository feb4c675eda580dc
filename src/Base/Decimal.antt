-- ===== src/Base/Decimal.antt =====
-- The verb %d and strconv.Atoi.
pub mod RoundTrip
use Prim.Native.Nat.{ℕ, zero, suc, ◌+◌, ◌-◌, ◌*◌, ◌/◌, ◌%◌, ◌^◌, ◌<◌}
use Prim.Native.Char.{code}
use Prim.Native.String.{String, [], ◌∷◌, ◌++◌ as ◌<>◌, slice}
use mathlib.Core.Path.{◌≡◌, refl}
use mathlib.Core.Bool.{true, false, ◌&&◌}
use mathlib.Core.Option.{Option, none, some}
use native.Mathlib.Omega.{arith}
use ghost_ship.Base.Tests.{Result, ok, err, ltb, leb, eqb, if◌then◌else◌}
use ghost_ship.Base.Text.{quote}
use ghost_ship.Base.Int.{ℤ, pos, negsuc}

digit : ℕ → String
digit d = slice "0123456789" d (d + 1)

-- Fuel `n + 1` is enough for `n`, which falls to a tenth each round.
decimal : ℕ → ℕ → String
unfolding digit
decimal zero n = ""
decimal (suc f) n = elim (ltb n 10) [
  | true ↦ digit n
  | false ↦ decimal f (n / 10) <> digit (n % 10)
]

unfoldable pub format_nat : ℕ → String
unfolding decimal
format_nat n = decimal (suc n) n

unfoldable pub format_int : ℤ → String
unfolding format_nat
format_int (pos n) = format_nat n
format_int (negsuc n) = "-" <> format_nat (suc n)

digits_value : ℕ → String → Option ℕ
digits_value acc [] = some acc
digits_value acc (c ∷ s) =
    let rest = digits_value (acc * 10 + (code c - 48)) s in
    if leb 48 (code c) && leb (code c) 57 then rest else none

-- The digits of a number that is at most `bound`, or what is wrong with them.
bounded : ℕ → String → Result ℕ
unfolding digits_value
bounded bound [] = err "invalid syntax"
bounded bound (c ∷ s) = elim (digits_value 0 (c ∷ s)) [
  | none ↦ err "invalid syntax"
  | some n ↦ if leb n bound then ok n else err "value out of range"
]

minus : ℕ → ℤ
minus zero = pos 0
minus (suc n) = negsuc n

signed : (ℕ → ℤ) → Result ℕ → String → Result ℤ
unfolding quote
signed sign (ok n) s = ok (sign n)
signed sign (err e) s = err ("strconv.Atoi: parsing " <> quote s <> ": " <> e)

-- `strconv.Atoi` for 64 bits
unfoldable pub atoi : String → Result ℤ
unfolding bounded minus signed
atoi [] = signed pos (bounded 0 "") ""
atoi (c ∷ s) =
    if eqb (code c) b'-'
    then signed minus (bounded (2 ^ 63) s) (c ∷ s)
    else if eqb (code c) b'+'
    then signed pos (bounded (2 ^ 63 - 1) s) (c ∷ s)
    else signed pos (bounded (2 ^ 63 - 1) (c ∷ s)) (c ∷ s)

-- More fuel changes nothing.
decimal_enough : (f g n : ℕ) → n < f → n < g → decimal f n ≡ decimal g n
unfolding decimal
decimal_enough zero g n h k = absurd (omega arith)
decimal_enough (suc f) zero n h k = absurd (omega arith)
decimal_enough (suc f) (suc g) n h k = ground (arith, decimal_enough f g (n / 10))

samples :
    (format_int (pos 8443) ≡ "8443")
    × (format_int (negsuc 41) ≡ "-42")
    × (format_int (pos 0) ≡ "0")
    × (atoi "512" ≡ ok (pos 512))
    × (atoi "-7" ≡ ok (negsuc 6))
    × (atoi "" ≡ err "strconv.Atoi: parsing \"\": invalid syntax")
    × (atoi "9223372036854775808"
        ≡ err "strconv.Atoi: parsing \"9223372036854775808\": value out of range")
unfolding format_int atoi
samples = (refl, refl, refl, refl, refl, refl, refl)
