-- ===== src/Base/Bytes.antt =====
-- Bytes of a number as characters of a text.
use Prim.Native.Nat.{compare, Ordering}
use Prim.Native.Char.{Char, char, IsScalar}
use ghost_ship.Base.{ℕ, ◌%◌, ◌<◌, ◌≡◌, arith}

compare-lt : (a b : ℕ) → a < b → compare a b ≡ Ordering.lt
compare-lt a b h = ground (arith, h)

pub IsScalar-byte : (n : ℕ) → IsScalar (n % 256)
IsScalar-byte n = rw (compare-lt (n % 256) 55296 (omega arith)) tt

-- `n & 0xFF`
unfoldable pub byte : ℕ → Char
byte n = char (n % 256) (IsScalar-byte n)
